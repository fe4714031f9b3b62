-- ===== src/Ops.antt =====
-- What the code relies on of its environment: the result codes of aosp/libavb/src/avb/headers/
-- avb_ops.h and avb_slot_verify.h. The operations themselves are parameters.
use android_boot_image_edito.Common.{ℕ, Bytes, Bool, true, false, Option}

-- `AvbIOResult`
pub data AvbIoResult : Type 0 where
  io_ok : AvbIoResult
  io_error_oom : AvbIoResult
  io_error_io : AvbIoResult
  io_error_no_such_partition : AvbIoResult
  io_error_range_outside_partition : AvbIoResult
  io_error_no_such_value : AvbIoResult
  io_error_invalid_value_size : AvbIoResult
  io_error_insufficient_space : AvbIoResult

-- `AvbSlotVerifyResult`
pub data AvbSlotVerifyResult : Type 0 where
  result_ok : AvbSlotVerifyResult
  result_error_oom : AvbSlotVerifyResult
  result_error_io : AvbSlotVerifyResult
  result_error_verification : AvbSlotVerifyResult
  result_error_rollback_index : AvbSlotVerifyResult
  result_error_public_key_rejected : AvbSlotVerifyResult
  result_error_invalid_metadata : AvbSlotVerifyResult
  result_error_unsupported_version : AvbSlotVerifyResult
  result_error_invalid_argument : AvbSlotVerifyResult

-- `AvbHashtreeErrorMode`
pub data AvbHashtreeErrorMode : Type 0 where
  mode_restart_and_invalidate : AvbHashtreeErrorMode
  mode_restart : AvbHashtreeErrorMode
  mode_eio : AvbHashtreeErrorMode
  mode_logging : AvbHashtreeErrorMode
  mode_managed_restart_and_eio : AvbHashtreeErrorMode

-- `AvbOps`, the operations that the boot loader gives. `Store` has the persistent values. A name is
-- the C string; a read returns the bytes that it put in the buffer; an offset is the 64-bit word of
-- the `int64_t`. `none` is an operation that is `NULL`. A preloaded partition is its bytes, or
-- `NULL`.
pub record AvbOps (Store : Type 0) : Type 0 where
  -- name, offset, num_bytes
  pub read_from_partition : Bytes → ℕ → ℕ → AvbIoResult × Bytes
  pub get_preloaded_partition : Option (Bytes → ℕ → AvbIoResult × Option Bytes)
  -- public key, metadata
  pub validate_vbmeta_public_key : Bytes → Option Bytes → AvbIoResult × Bool
  pub read_rollback_index : ℕ → AvbIoResult × ℕ
  pub read_is_device_unlocked : AvbIoResult × Bool
  pub get_unique_guid_for_partition : Bytes → AvbIoResult × Bytes
  pub get_size_of_partition : Bytes → AvbIoResult × ℕ
  -- name, buffer_size
  pub read_persistent_value : Option (Store → Bytes → ℕ → AvbIoResult × Bytes)
  -- name, value
  pub write_persistent_value : Option (Store → Bytes → Bytes → AvbIoResult × Store)
  -- name, public key, metadata; the rollback index location is the last
  pub validate_public_key_for_partition :
      Option (Bytes → Bytes → Option Bytes → AvbIoResult × Bool × ℕ)

-- Whether the verification goes on after this result when errors are allowed.
unfoldable pub result_should_continue : AvbSlotVerifyResult → Bool
result_should_continue result_ok = true
result_should_continue result_error_oom = false
result_should_continue result_error_io = false
result_should_continue result_error_verification = true
result_should_continue result_error_rollback_index = true
result_should_continue result_error_public_key_rejected = true
result_should_continue result_error_invalid_metadata = false
result_should_continue result_error_unsupported_version = false
result_should_continue result_error_invalid_argument = false

-- `ret == AVB_SLOT_VERIFY_RESULT_OK`
abbrev pub is_ok : AvbSlotVerifyResult → Bool
is_ok result_ok = true
is_ok result_error_oom = false
is_ok result_error_io = false
is_ok result_error_verification = false
is_ok result_error_rollback_index = false
is_ok result_error_public_key_rejected = false
is_ok result_error_invalid_metadata = false
is_ok result_error_unsupported_version = false
is_ok result_error_invalid_argument = false
