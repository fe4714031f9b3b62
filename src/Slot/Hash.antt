-- ===== src/Slot/Hash.antt =====
-- `load_and_verify_hash_partition`. `memory` is the image from the descriptor on.
pub mod Loads
pub mod Compared
pub mod Verified
use android_boot_image_edito.Common.{
  ℕ, ◌+◌, Bool, not, ◌&&◌, ◌||◌, leb, ltb, ◌==◌, if◌then◌else◌, Option, none, some, bit_and, Bytes,
  List, [], ◌∷◌, length, take, drop, get_or,
}
use android_boot_image_edito.Memory.{read}
use android_boot_image_edito.Util.Compare.{avb_safe_memcmp}
use android_boot_image_edito.Util.Utf8.{avb_validate_utf8}
use android_boot_image_edito.Util.Strings.{avb_strdup, avb_strlen}
use android_boot_image_edito.Util.Text.{avb_strv_find_str}
use android_boot_image_edito.Crypto.{Primitives}
use android_boot_image_edito.Descriptor.{
  AvbHashDescriptor, avb_hash_descriptor_validate_and_byteswap,
}
use android_boot_image_edito.Ops.{
  AvbSlotVerifyResult, result_ok, result_error_verification, result_error_invalid_metadata, AvbOps,
  result_should_continue, is_ok,
}
use android_boot_image_edito.Slot.Exec.{
  Exec, pure, leave, lift, allocate, or_leave, if_null, ◌>>=◌, ◌>>◌, check, function, set_slot_data,
}
use android_boot_image_edito.Slot.Load.{
  before_nul, strcmp_equal, with_suffix, load_full_partition, size_of_partition, add_loaded,
  room_for_partition,
}
use android_boot_image_edito.Slot.Digest.{read_persistent_digest}

-- "sha256"
abbrev pub word_sha256 : Bytes
word_sha256 = 115 ∷ 104 ∷ 97 ∷ 50 ∷ 53 ∷ 54 ∷ []

-- "sha512"
abbrev pub word_sha512 : Bytes
word_sha512 = 115 ∷ 104 ∷ 97 ∷ 53 ∷ 49 ∷ 50 ∷ []

-- `part_name`, with or without the suffix.
unfoldable pub hash_part_name :
    {Store : Type 0} → Bytes → AvbHashDescriptor → Bytes → Exec Store Bytes
hash_part_name ab_suffix hash_desc name =
    if not (bit_and hash_desc.flags 1 == 0)
    then check (not (leb 32 hash_desc.partition_name_len)) result_error_invalid_metadata
      >> pure (before_nul name)
    else if hash_desc.digest_len == 0 && not (avb_strlen ab_suffix == 0)
    then leave result_error_invalid_metadata
    else with_suffix name ab_suffix

-- The digest of salt and image by the algorithm that the descriptor names.
unfoldable pub image_digest : Primitives → Bytes → Bytes → Bytes → Option Bytes
image_digest crypto hash_algorithm salt image =
    if strcmp_equal hash_algorithm word_sha256
    then some (crypto.sha256 (salt ∷ image ∷ []))
    else if strcmp_equal hash_algorithm word_sha512
    then some (crypto.sha512 (salt ∷ image ∷ []))
    else none

-- `image_size_to_hash`
abbrev pub size_to_hash : AvbHashDescriptor → ℕ → ℕ
size_to_hash hash_desc image_size =
    if ltb image_size hash_desc.image_size then image_size else hash_desc.image_size

module _ (crypto : Primitives) {Store : Type 0} (ops : AvbOps Store)
    (requested_partitions : List Bytes) (ab_suffix : Bytes) (allow_verification_error : Bool) where
  -- `expected_digest` with `expected_digest_len`: the memory behind the pointer and the length.
  unfoldable pub wanted_digest : Bytes → AvbHashDescriptor → Bytes → Bytes → Exec Store (Bytes × ℕ)
  wanted_digest memory hash_desc part_name digest =
      if hash_desc.digest_len == 0
      then (do
        stored ← read_persistent_digest ops part_name (length digest) (some digest)
        pure (stored, length digest))
      else pure (
        drop (132 + hash_desc.partition_name_len + hash_desc.salt_len) memory,
        hash_desc.digest_len,
      )

  -- From the choice of the hash function on, up to `out:`.
  unfoldable pub check_digest :
      Bytes → AvbHashDescriptor → Bytes → ℕ → Bytes → Exec Store AvbSlotVerifyResult
  check_digest memory hash_desc part_name image_size image_buf = do
    salt ← lift (read memory (132 + hash_desc.partition_name_len) hash_desc.salt_len)
    let image = take (size_to_hash hash_desc image_size) image_buf
    digest ←
        or_leave (image_digest crypto hash_desc.hash_algorithm salt image)
          result_error_invalid_metadata
    expected ← wanted_digest memory hash_desc part_name digest
    check (length digest == expected.1) result_error_invalid_metadata
    differs ← lift (avb_safe_memcmp digest expected.0 (length digest))
    check (differs == 0) result_error_verification
    pure result_ok

  -- What stands behind `out:` when an image is loaded.
  unfoldable pub keep_image :
      Bytes → ℕ → Bytes → Bool → AvbSlotVerifyResult → Exec Store AvbSlotVerifyResult
  keep_image found image_size image_buf image_preloaded ret =
      if is_ok ret || result_should_continue ret
      then (do
        room_for_partition
        partition_name ← allocate (avb_strdup found)
        set_slot_data (
            add_loaded (record {
              partition_name = partition_name;
              contents = image_buf;
              data_size = image_size;
              preloaded = image_preloaded;
            }))
        pure ret)
      else pure ret

  -- From the partition's name on, for a partition that was requested as `found`.
  unfoldable pub verify_requested :
      Bytes → AvbHashDescriptor → Bytes → Bytes → Exec Store AvbSlotVerifyResult
  verify_requested memory hash_desc name found = do
    part_name ← hash_part_name ab_suffix hash_desc name
    image_size ←
        if allow_verification_error
        then size_of_partition ops part_name
        else pure (hash_desc.image_size)
    image ← load_full_partition ops part_name image_size
    ret ← function (check_digest memory hash_desc part_name image_size image.0)
    keep_image found image_size image.0 image.1 ret

  unfoldable pub load_and_verify_hash_partition : Bytes → Exec Store AvbSlotVerifyResult
  load_and_verify_hash_partition memory = function do
    desc ← lift (avb_hash_descriptor_validate_and_byteswap memory)
    hash_desc ← or_leave desc result_error_invalid_metadata
    name ← lift (read memory 132 hash_desc.partition_name_len)
    check (avb_validate_utf8 name) result_error_invalid_metadata
    if_null (avb_strv_find_str requested_partitions name) (pure result_ok)
        (λ n. verify_requested memory hash_desc name (get_or requested_partitions n []))
