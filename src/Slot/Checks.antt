-- ===== src/Slot/Checks.antt =====
-- The checks of a vbmeta image in `load_and_verify_vbmeta`, up to its record in the slot data.
use android_boot_image_edito.Common.{
  ℕ, ◌+◌, Bool, true, false, not, ◌&&◌, ◌||◌, ltb, ◌==◌, if◌then◌else◌, Option, none, some, bit_and,
  Bytes, [], ◌∷◌, ◌++◌, length,
}
use android_boot_image_edito.Memory.{Run, ok, fault, read}
use android_boot_image_edito.Util.Compare.{avb_safe_memcmp}
use android_boot_image_edito.Util.Strings.{avb_strdup}
use android_boot_image_edito.Footer.{AvbFooter}
use android_boot_image_edito.Vbmeta.Header.{AvbVbMetaImageHeader}
use android_boot_image_edito.Vbmeta.Verify.{
  AvbVbMetaVerifyResult, result_ok, ok_not_signed, invalid_vbmeta_header, unsupported_version,
  hash_mismatch, signature_mismatch, Verdict,
}
use android_boot_image_edito.Ops.{
  AvbIoResult, io_ok, io_error_oom, io_error_no_such_partition, AvbSlotVerifyResult,
  result_error_oom, result_error_io, result_error_verification, result_error_rollback_index,
  result_error_public_key_rejected, result_error_invalid_metadata, result_error_unsupported_version,
  AvbOps, is_ok,
}
use android_boot_image_edito.Ops
use android_boot_image_edito.Slot.Exec.{
  AvbVbMetaData, AvbSlotVerifyData, Exec, pure, leave, undefined, lift, allocate, gets, if_null,
  ◌>>=◌, ◌>>◌, check, avb_assert, or_io, set_slot_data,
}
use android_boot_image_edito.Slot.Load.{string_at}
use android_boot_image_edito.Slot.Entries.{VbMetaCall}

-- `is_main_vbmeta`
abbrev pub is_main : ℕ → ℕ → Bool
is_main flags rollback_index_location = rollback_index_location == 0 && bit_and flags 4 == 0

-- `avb_strncmp(memory, str, avb_strlen(str)) == 0`, which stops at the first difference.
unfoldable pub strncmp_equal : Bytes → Bytes → Run Bool
strncmp_equal memory [] = ok true
strncmp_equal [] (y ∷ str) = fault
strncmp_equal (x ∷ memory) (y ∷ str) = elim (x == y) [
  | false ↦ ok false
  | true ↦ strncmp_equal memory str
]

-- `vbmeta_offset` and `vbmeta_size` of a footer that was read; `VBMETA_MAX_SIZE` is 65536.
abbrev pub place_of : AvbFooter × Bool → ℕ × ℕ
place_of (footer, true) =
    if ltb 65536 footer.vbmeta_size then (0, 65536) else (footer.vbmeta_offset, footer.vbmeta_size)
place_of (footer, false) = (0, 65536)

-- The result of `avb_vbmeta_image_verify`, and what it makes of `ret`.
unfoldable pub after_verify : {Store : Type 0} → Bool → Verdict → Exec Store AvbSlotVerifyResult
after_verify allow_verification_error verdict = elim (verdict.result) [
  | result_ok ↦ elim (verdict.public_key) [
    | none ↦ avb_assert false >> pure Ops.AvbSlotVerifyResult.result_ok
    | some (offset, pk_len) ↦ avb_assert (ltb 0 pk_len) >> pure Ops.AvbSlotVerifyResult.result_ok
  ]
  | ok_not_signed ↦
      check allow_verification_error result_error_verification >> pure result_error_verification
  | hash_mismatch ↦
      check allow_verification_error result_error_verification >> pure result_error_verification
  | signature_mismatch ↦
      check allow_verification_error result_error_verification >> pure result_error_verification
  | invalid_vbmeta_header ↦ leave result_error_invalid_metadata
  | unsupported_version ↦ leave result_error_unsupported_version
]

-- `ret = …; if (!allow_verification_error) goto out;` unless the test holds.
unfoldable pub tolerate :
    {Store : Type 0}
    → Bool
    → Bool
    → AvbSlotVerifyResult
    → AvbSlotVerifyResult
    → Exec Store AvbSlotVerifyResult
tolerate allow_verification_error b ret error =
    if b then pure ret else check allow_verification_error error >> pure error

-- `memory + 256 + …` for the key's metadata, or `NULL`.
unfoldable pub key_metadata :
    {Store : Type 0} → Bytes → AvbVbMetaImageHeader → Exec Store (Option Bytes)
key_metadata image header =
    if ltb 0 header.public_key_metadata_size
    then (do
      pk_metadata ← lift (
          read image
            (256 + header.authentication_data_block_size + header.public_key_metadata_offset)
            header.public_key_metadata_size)
      pure (some pk_metadata))
    else pure none

module _ {Store : Type 0} (ops : AvbOps Store) (flags : ℕ) where
  -- The operation that judges the key: `key_is_trusted` and the rollback index location.
  unfoldable pub trusted_key : Bool → ℕ → Bytes → Bytes → Option Bytes → Exec Store (Bool × ℕ)
  trusted_key is_main_vbmeta location full_partition_name public_key metadata =
      if not (bit_and flags 4 == 0)
      then if_null (ops.validate_public_key_for_partition) undefined (λ validate.
        let answer = validate full_partition_name public_key metadata in
        or_io (answer.0) >> pure (answer.1, answer.2))
      else (do
        avb_assert is_main_vbmeta
        let answer = ops.validate_vbmeta_public_key public_key metadata
        or_io (answer.0)
        pure (answer.1, location))

  -- The branch for an expected key.
  unfoldable pub chained_key :
      Bool
      → VbMetaCall
      → Bytes
      → Bytes
      → ℕ
      → AvbSlotVerifyResult
      → Exec Store (AvbSlotVerifyResult × ℕ)
  chained_key allow call expected public_key pk_len ret = do
    avb_assert (not (is_main flags call.rollback_index_location))
    differs ←
        if call.expected_public_key_length == pk_len
        then lift (avb_safe_memcmp expected public_key pk_len)
        else pure 1
    ret' ← tolerate allow (differs == 0) ret result_error_public_key_rejected
    pure (ret', call.rollback_index_location)

  -- The branch without one.
  unfoldable pub anchored_key :
      Bool
      → VbMetaCall
      → Bytes
      → Bytes
      → AvbVbMetaImageHeader
      → Bytes
      → AvbSlotVerifyResult
      → Exec Store (AvbSlotVerifyResult × ℕ)
  anchored_key allow call full_partition_name image header public_key ret = do
    metadata ← key_metadata image header
    trust ←
        trusted_key (is_main flags call.rollback_index_location) call.rollback_index_location
          full_partition_name public_key metadata
    ret' ← tolerate allow (trust.0) ret result_error_public_key_rejected
    pure (ret', trust.1)

  -- `if (pk_data != NULL)`: `ret` and `rollback_index_location_to_use`.
  unfoldable pub check_key :
      Bool
      → VbMetaCall
      → Bytes
      → Bytes
      → AvbVbMetaImageHeader
      → Option (ℕ × ℕ)
      → AvbSlotVerifyResult
      → Exec Store (AvbSlotVerifyResult × ℕ)
  check_key allow call full_partition_name image header none ret =
      pure (ret, call.rollback_index_location)
  check_key allow call full_partition_name image header (some (offset, pk_len)) ret = do
    public_key ← lift (read image offset pk_len)
    if_null (call.expected_public_key)
        (anchored_key allow call full_partition_name image header public_key ret)
        (λ expected. chained_key allow call expected public_key pk_len ret)

  unfoldable pub check_rollback :
      Bool → AvbVbMetaImageHeader → ℕ → AvbSlotVerifyResult → Exec Store AvbSlotVerifyResult
  check_rollback allow header location ret =
      let answer = ops.read_rollback_index location in
      or_io (answer.0)
      >> tolerate allow (not (ltb header.rollback_index answer.1)) ret result_error_rollback_index

-- `memory` is the buffer of the partition, at the address that `malloc` gave.
abbrev pub add_image : AvbVbMetaData → AvbSlotVerifyData → AvbSlotVerifyData
add_image image slot_data = record slot_data {
  vbmeta_images = slot_data.vbmeta_images ++ (image ∷ []);
}

-- "Copy vbmeta to vbmeta_images before recursing."
unfoldable pub record_image :
    {Store : Type 0}
    → ℕ
    → VbMetaCall
    → Bytes
    → AvbVbMetaImageHeader
    → AvbVbMetaVerifyResult
    → Exec Store Unit
record_image flags call image header verify_result = do
  images ← gets (λ s. s.slot_data.vbmeta_images)
  avb_assert (
      if is_main flags call.rollback_index_location
      then length images == 0
      else not (bit_and flags 4 == 0) || ltb 0 (length images))
  check (not (length images == 32)) result_error_oom
  name ← lift (string_at call.partition_name)
  partition_name ← allocate (avb_strdup name)
  set_slot_data (
      add_image (record {
        partition_name = partition_name;
        vbmeta_data = image;
        vbmeta_size =
            256 + header.authentication_data_block_size + header.auxiliary_data_block_size;
        verify_result = verify_result;
      }))
