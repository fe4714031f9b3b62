-- ===== src/Vbmeta/Verify/Checks.antt =====
-- The header's checks, with their overflow tests, as plain inequalities.
use android_boot_image_edito.Common.{
  ℕ, ◌+◌, ◌%◌, ◌≤◌, ◌<◌, ◌^◌, ◌≡◌, ◌↔◌, ◌⊎◌, arith, true, false, none, get_or,
}
use android_boot_image_edito.Common.Bits.{bit_and_63}
use android_boot_image_edito.Util.Checked.{avb_safe_add}
use android_boot_image_edito.Vbmeta.Header.{AvbVbMetaImageHeader}
use android_boot_image_edito.Vbmeta.Verify.{
  leaves_block, block_sizes_valid, ranges_valid, header_failure,
}

-- The 64-bit fields of a header are `uint64_t` values.
pub record FieldsFit (h : AvbVbMetaImageHeader) : Type 0 where
  pub authentication_data_block_size : h.authentication_data_block_size < 2 ^ 64
  pub auxiliary_data_block_size : h.auxiliary_data_block_size < 2 ^ 64
  pub hash_offset : h.hash_offset < 2 ^ 64
  pub hash_size : h.hash_size < 2 ^ 64
  pub signature_offset : h.signature_offset < 2 ^ 64
  pub signature_size : h.signature_size < 2 ^ 64
  pub public_key_offset : h.public_key_offset < 2 ^ 64
  pub public_key_size : h.public_key_size < 2 ^ 64
  pub public_key_metadata_offset : h.public_key_metadata_offset < 2 ^ 64
  pub public_key_metadata_size : h.public_key_metadata_size < 2 ^ 64

-- The three blocks fit the image, at true sums.
pub record BlocksFit (data_ptr length : ℕ) (h : AvbVbMetaImageHeader) : Type 0 where
  pub authentication_aligned : h.authentication_data_block_size % 64 ≡ 0
  pub auxiliary_aligned : h.auxiliary_data_block_size % 64 ≡ 0
  pub inside : 256 + h.authentication_data_block_size + h.auxiliary_data_block_size ≤ length
  pub no_wrap : data_ptr + length < 2 ^ 64

-- Each range lies inside its block.
pub record RangesFit (h : AvbVbMetaImageHeader) : Type 0 where
  pub hash : h.hash_offset + h.hash_size ≤ h.authentication_data_block_size
  pub signature : h.signature_offset + h.signature_size ≤ h.authentication_data_block_size
  pub public_key : h.public_key_offset + h.public_key_size ≤ h.auxiliary_data_block_size
  pub metadata :
      (h.public_key_metadata_size ≡ 0)
      ⊎ (h.public_key_metadata_offset + h.public_key_metadata_size ≤ h.auxiliary_data_block_size)

pub record HeaderValid (data_ptr length : ℕ) (h : AvbVbMetaImageHeader) : Type 0 where
  pub major : h.required_libavb_version_major ≡ 1
  pub minor : h.required_libavb_version_minor ≤ 1
  pub terminated : get_or h.release_string 47 0 ≡ 0
  pub blocks : BlocksFit data_ptr length h
  pub ranges : RangesFit h

leaves_block_iff :
    (offset size block : ℕ)
    → offset < 2 ^ 64
    → size < 2 ^ 64
    → block < 2 ^ 64
    → (leaves_block offset size block ≡ false) ↔ (offset + size ≤ block)
unfolding leaves_block avb_safe_add
leaves_block_iff offset size block p q r = ground arith

module _ (data_ptr length : ℕ) (h : AvbVbMetaImageHeader) (f : FieldsFit h) (dp : data_ptr < 2 ^ 64)
    (len : length < 2 ^ 64) where
  block_sizes_iff : (block_sizes_valid data_ptr length h ≡ true) ↔ BlocksFit data_ptr length h
  unfolding block_sizes_valid avb_safe_add
  block_sizes_iff =
      ground
        (arith, bit_and_63 h.authentication_data_block_size, bit_and_63 h.auxiliary_data_block_size)

  ranges_iff : (ranges_valid h ≡ true) ↔ RangesFit h
  unfolding ranges_valid
  ranges_iff = ground (
    arith,
    leaves_block_iff h.hash_offset h.hash_size h.authentication_data_block_size,
    leaves_block_iff h.signature_offset h.signature_size h.authentication_data_block_size,
    leaves_block_iff h.public_key_offset h.public_key_size h.auxiliary_data_block_size,
    leaves_block_iff h.public_key_metadata_offset h.public_key_metadata_size
        h.auxiliary_data_block_size,
  )

  pub header_failure_iff : (header_failure data_ptr length h ≡ none) ↔ HeaderValid data_ptr length h
  unfolding header_failure
  header_failure_iff = ground (arith, block_sizes_iff, ranges_iff)
