-- ===== src/Slot/Digest.antt =====
-- Persistent digests: `read_persistent_digest` and `initialize_persistent_digest`.
pub mod Initialize
use android_boot_image_edito.Common.{
  ℕ, Bool, true, false, not, ◌==◌, if◌then◌else◌, Option, none, some, Bytes, List, [], ◌∷◌, length,
}
use android_boot_image_edito.Util.Text.{avb_strdupv}
use android_boot_image_edito.Ops.{
  AvbIoResult, io_ok, io_error_oom, io_error_io, io_error_no_such_partition,
  io_error_range_outside_partition, io_error_no_such_value, io_error_invalid_value_size,
  io_error_insufficient_space, AvbSlotVerifyResult, result_error_oom, result_error_io,
  result_error_verification, result_error_invalid_metadata, AvbOps,
}
use android_boot_image_edito.Slot.Exec.{
  SlotState, Outcome, done, left, aborted, Exec, pure, leave, undefined, if_null, ◌>>=◌, ◌>>◌,
  check, or_io,
}

-- "avb.persistent_digest."
abbrev pub persistent_digest_prefix : Bytes
persistent_digest_prefix =
    97 ∷ 118 ∷ 98 ∷ 46 ∷ 112 ∷ 101 ∷ 114 ∷ 115 ∷ 105 ∷ 115 ∷ 116 ∷ 101 ∷ 110 ∷ 116 ∷ 95 ∷ 100 ∷ 105
    ∷ 103 ∷ 101 ∷ 115 ∷ 116 ∷ 46 ∷ []

-- `avb_strdupv` of the prefix and the partition's name.
unfoldable pub persistent_value_name : {Store : Type 0} → Bytes → Exec Store Bytes
persistent_value_name part_name s =
    elim (avb_strdupv persistent_digest_prefix (part_name ∷ []) (s.heap)) [
      | none ↦ aborted
      | some (none, heap') ↦ left result_error_oom (record s { heap = heap' })
      | some (some name, heap') ↦ done name (record s { heap = heap' })
    ]

-- The tests of `io_ret` and of the size at the end of `read_persistent_digest`.
unfoldable pub stored_digest : {Store : Type 0} → ℕ → Bytes → AvbIoResult → Exec Store Bytes
stored_digest expected_digest_size stored io_ok =
    check (expected_digest_size == length stored) result_error_invalid_metadata >> pure stored
stored_digest expected_digest_size stored io_error_oom = leave result_error_oom
stored_digest expected_digest_size stored io_error_io = leave result_error_io
stored_digest expected_digest_size stored io_error_no_such_partition = leave result_error_io
stored_digest expected_digest_size stored io_error_range_outside_partition = leave result_error_io
stored_digest expected_digest_size stored io_error_no_such_value = leave result_error_verification
stored_digest expected_digest_size stored io_error_invalid_value_size =
    leave result_error_invalid_metadata
stored_digest expected_digest_size stored io_error_insufficient_space =
    leave result_error_invalid_metadata

abbrev pub no_such_value : AvbIoResult → Bool
no_such_value io_ok = false
no_such_value io_error_oom = false
no_such_value io_error_io = false
no_such_value io_error_no_such_partition = false
no_such_value io_error_range_outside_partition = false
no_such_value io_error_no_such_value = true
no_such_value io_error_invalid_value_size = false
no_such_value io_error_insufficient_space = false

module _ {Store : Type 0} (ops : AvbOps Store) where
  -- `ops->read_persistent_value`, which the caller has found not to be `NULL`.
  unfoldable pub read_value :
      (Store → Bytes → ℕ → AvbIoResult × Bytes) → Bytes → ℕ → Exec Store (AvbIoResult × Bytes)
  read_value read_persistent_value name buffer_size s =
      done (read_persistent_value (s.store) name buffer_size) s

  -- `ops->write_persistent_value`; the call through a `NULL` pointer is undefined.
  unfoldable pub write_value : Bytes → Bytes → Exec Store AvbIoResult
  write_value name value =
      if_null (ops.write_persistent_value) undefined (λ write_persistent_value s.
        let answer = write_persistent_value (s.store) name value in
        done (answer.0) (record s { store = answer.1 }))

  -- `read_persistent_digest` for a `NULL` initial digest; the result is `out_digest`.
  unfoldable pub read_back : Bytes → ℕ → Exec Store Bytes
  read_back part_name expected_digest_size =
      if_null (ops.read_persistent_value) (leave result_error_invalid_metadata)
        (λ read_persistent_value. persistent_value_name part_name >>= λ name.
          read_value read_persistent_value name expected_digest_size >>= λ answer.
          stored_digest expected_digest_size (answer.1) (answer.0))

  -- The size of the digest is that of `initial_digest`.
  unfoldable pub initialize_persistent_digest : Bytes → Bytes → Bytes → Exec Store Bytes
  initialize_persistent_digest part_name name initial_digest =
      or_io (ops.read_is_device_unlocked.0)
      >> check (not ops.read_is_device_unlocked.1) result_error_verification
      >> write_value name initial_digest
      >>= λ io_ret'. or_io io_ret' >> read_back part_name (length initial_digest)

  unfoldable pub read_persistent_digest : Bytes → ℕ → Option Bytes → Exec Store Bytes
  read_persistent_digest part_name expected_digest_size none =
      read_back part_name expected_digest_size
  read_persistent_digest part_name expected_digest_size (some initial_digest) =
      if_null (ops.read_persistent_value) (leave result_error_invalid_metadata)
        (λ read_persistent_value. persistent_value_name part_name >>= λ name.
          read_value read_persistent_value name expected_digest_size >>= λ answer.
          if no_such_value (answer.0)
          then initialize_persistent_digest part_name name initial_digest
          else stored_digest expected_digest_size (answer.1) (answer.0))
