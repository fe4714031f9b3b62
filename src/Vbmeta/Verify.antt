-- ===== src/Vbmeta/Verify.antt =====
-- `avb_vbmeta_image_verify`. Pointers into the image are offsets; `data_ptr` is its address. A
-- caller that passes `NULL` for the public key's place ignores that part of the outcome.
pub mod Checks
pub mod Signed
pub mod Authentic
pub mod Key
use android_boot_image_edito.Common.{
  ℕ, ◌+◌, ◌-◌, ◌*◌, Bool, true, false, not, ◌||◌, leb, ltb, ◌==◌, if◌then◌else◌, Option, none, some,
  bit_and, Bytes, List, [], ◌∷◌, drop, get_or,
}
use android_boot_image_edito.Memory.{Run, ok, fault, ◌>>=◌, read}
use android_boot_image_edito.Util.Checked.{avb_safe_add_to, avb_safe_add}
use android_boot_image_edito.Util.Compare.{avb_safe_memcmp}
use android_boot_image_edito.Crypto.{Primitives, AvbAlgorithmData, avb_get_algorithm_data}
use android_boot_image_edito.Vbmeta.Header.{
  AvbVbMetaImageHeader, avb_magic, avb_vbmeta_image_header_to_host_byte_order,
}

pub data AvbVbMetaVerifyResult : Type 0 where
  result_ok ok_not_signed invalid_vbmeta_header unsupported_version : AvbVbMetaVerifyResult
  hash_mismatch signature_mismatch : AvbVbMetaVerifyResult

-- The result, and `*out_public_key_data` with `*out_public_key_length`: an offset into the image
-- and a length, or `NULL`.
pub record Verdict : Type 0 where
  pub result : AvbVbMetaVerifyResult
  pub public_key : Option (ℕ × ℕ)

abbrev pub without_key : AvbVbMetaVerifyResult → Verdict
without_key r = record { result = r; public_key = none }

-- A range of `size` bytes at `offset` that leaves a block: the checked sum wraps, or ends behind
-- it.
unfoldable pub leaves_block : ℕ → ℕ → ℕ → Bool
leaves_block offset size block =
    let (end_offset, fits) = avb_safe_add offset size in not fits || ltb block end_offset

-- The checks of the block sizes. `false` is `goto out` with an invalid header.
unfoldable pub block_sizes_valid : ℕ → ℕ → AvbVbMetaImageHeader → Bool
block_sizes_valid data_ptr length h =
    let (with_authentication, fits) = avb_safe_add_to 256 h.authentication_data_block_size in
    let (block_total, fits') = avb_safe_add_to with_authentication h.auxiliary_data_block_size in
    if not (bit_and h.authentication_data_block_size 0x3f == 0)
      || not (bit_and h.auxiliary_data_block_size 0x3f == 0)
    then false
    else if not fits || not fits'
    then false
    else if ltb length block_total
    then false
    else if not (avb_safe_add data_ptr length).1
    then false
    else true

-- The checks that hash, signature, key and key metadata lie inside their blocks.
unfoldable pub ranges_valid : AvbVbMetaImageHeader → Bool
ranges_valid h =
    if leaves_block h.hash_offset h.hash_size h.authentication_data_block_size
    then false
    else if leaves_block h.signature_offset h.signature_size h.authentication_data_block_size
    then false
    else if leaves_block h.public_key_offset h.public_key_size h.auxiliary_data_block_size
    then false
    else if ltb 0 h.public_key_metadata_size
    then not (
        leaves_block h.public_key_metadata_offset h.public_key_metadata_size
          h.auxiliary_data_block_size)
    else true

-- The checks of the header, in the order of the source: `some` is `goto out` with that result.
unfoldable pub header_failure : ℕ → ℕ → AvbVbMetaImageHeader → Option AvbVbMetaVerifyResult
header_failure data_ptr length h =
    if not (h.required_libavb_version_major == 1) || ltb 1 h.required_libavb_version_minor
    then some unsupported_version
    else if not (get_or h.release_string (48 - 1) 0 == 0)
    then some invalid_vbmeta_header
    else if not (block_sizes_valid data_ptr length h)
    then some invalid_vbmeta_header
    else if not (ranges_valid h)
    then some invalid_vbmeta_header
    else none

-- The `switch` that hashes the header block and the auxiliary block; `none` is its `default:`.
unfoldable pub computed_hash : Primitives → ℕ → Bytes → Bytes → Option Bytes
computed_hash c algorithm_type header_block auxiliary_block =
    if algorithm_type == 1 || algorithm_type == 2 || algorithm_type == 3
    then some (c.sha256 (header_block ∷ auxiliary_block ∷ []))
    else if algorithm_type == 4 || algorithm_type == 5 || algorithm_type == 6
    then some (c.sha512 (header_block ∷ auxiliary_block ∷ []))
    else none

-- From the call of `avb_rsa_verify` on.
unfoldable pub verify_signature :
    Primitives → Bytes → AvbVbMetaImageHeader → AvbAlgorithmData → Run Verdict
verify_signature c image h algorithm = do
  let auxiliary_block = 256 + h.authentication_data_block_size
  key ← read image (auxiliary_block + h.public_key_offset) h.public_key_size
  signature ← read image (256 + h.signature_offset) h.signature_size
  hash ← read image (256 + h.hash_offset) h.hash_size
  ok (
      if not (c.avb_rsa_verify key signature hash algorithm.padding)
      then without_key signature_mismatch
      else record {
        result = result_ok;
        public_key =
            if ltb 0 h.public_key_size
            then some (auxiliary_block + h.public_key_offset, h.public_key_size)
            else none;
      })

-- From the comparison of the stored hash with the computed one on.
unfoldable pub verify_hash :
    Primitives → Bytes → AvbVbMetaImageHeader → AvbAlgorithmData → Bytes → Run Verdict
verify_hash c image h algorithm digest =
    avb_safe_memcmp (drop (256 + h.hash_offset) image) digest h.hash_size >>= λ differs.
    if not (differs == 0)
    then ok (without_key hash_mismatch)
    else verify_signature c image h algorithm

-- What the `switch` leads to.
unfoldable pub with_digest :
    Primitives → Bytes → AvbVbMetaImageHeader → AvbAlgorithmData → Option Bytes → Run Verdict
with_digest c image h algorithm none = ok (without_key invalid_vbmeta_header)
with_digest c image h algorithm (some digest) = verify_hash c image h algorithm digest

-- From the comparison of the hash size on, for an algorithm of the table.
unfoldable pub with_algorithm :
    Primitives → Bytes → AvbVbMetaImageHeader → Option AvbAlgorithmData → Run Verdict
with_algorithm c image h none = ok (without_key invalid_vbmeta_header)
with_algorithm c image h (some algorithm) =
    if not (h.hash_size == algorithm.hash_len)
    then ok (without_key invalid_vbmeta_header)
    else read image 0 256 >>= λ header_block.
        read image (256 + h.authentication_data_block_size) h.auxiliary_data_block_size
        >>= λ auxiliary_block.
            with_digest c image h algorithm
              (computed_hash c h.algorithm_type header_block auxiliary_block)

-- From the early return for an image without a signature on, after the header's checks.
unfoldable pub verify_blocks : Primitives → Bytes → AvbVbMetaImageHeader → Run Verdict
verify_blocks c image h =
    if h.algorithm_type == 0
    then ok (without_key ok_not_signed)
    else with_algorithm c image h (avb_get_algorithm_data h.algorithm_type)

-- The rest of the function, once the header's checks are made.
unfoldable pub with_header :
    Primitives → Bytes → AvbVbMetaImageHeader → Option AvbVbMetaVerifyResult → Run Verdict
with_header c image h (some r) = ok (without_key r)
with_header c image h none = verify_blocks c image h

unfoldable pub avb_vbmeta_image_verify : Primitives → ℕ → Bytes → ℕ → Run Verdict
avb_vbmeta_image_verify c data_ptr image length =
    if ltb length 256
    then ok (without_key invalid_vbmeta_header)
    else avb_safe_memcmp image avb_magic 4 >>= λ differs.
        if not (differs == 0)
        then ok (without_key invalid_vbmeta_header)
        else read image 0 256 >>= λ src.
            let h = avb_vbmeta_image_header_to_host_byte_order src in
            with_header c image h (header_failure data_ptr length h)
