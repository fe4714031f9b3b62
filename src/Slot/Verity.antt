-- ===== src/Slot/Verity.antt =====
-- The management of the dm-verity error mode, `avb_manage_hashtree_error_mode`, and the digest over
-- all vbmeta images, `avb_slot_verify_data_calculate_vbmeta_digest`.
pub mod Modes
use mathlib.Core.List.{map}
use android_boot_image_edito.Common.{
  ℕ, Bool, true, false, not, ◌==◌, if◌then◌else◌, Option, none, some, bit_and, Bytes, List, [], ◌∷◌,
  length, take,
}
use android_boot_image_edito.Util.Compare.{same_bytes}
use android_boot_image_edito.Crypto.{Primitives}
use android_boot_image_edito.Ops.{
  AvbIoResult, io_ok, io_error_oom, io_error_io, io_error_no_such_partition,
  io_error_range_outside_partition, io_error_no_such_value, io_error_invalid_value_size,
  io_error_insufficient_space, AvbHashtreeErrorMode, mode_restart, mode_eio, AvbOps,
}
use android_boot_image_edito.Slot.Exec.{
  AvbVbMetaData, SlotState, Exec, pure, abort, gets, if_null, ◌>>=◌, ◌>>◌,
}
use android_boot_image_edito.Slot.Digest.{no_such_value, read_value, write_value}

-- The bytes of an image that are hashed.
abbrev pub image_bytes : AvbVbMetaData → Bytes
image_bytes image = take image.vbmeta_size image.vbmeta_data

-- `AvbDigestType`
pub data AvbDigestType : Type 0 where
  digest_type_sha256 digest_type_sha512 : AvbDigestType

unfoldable pub avb_slot_verify_data_calculate_vbmeta_digest :
    Primitives → List AvbVbMetaData → AvbDigestType → Bytes
avb_slot_verify_data_calculate_vbmeta_digest crypto images digest_type_sha256 =
    crypto.sha256 (map image_bytes images)
avb_slot_verify_data_calculate_vbmeta_digest crypto images digest_type_sha512 =
    crypto.sha512 (map image_bytes images)

-- "avb.managed_verity_mode"
abbrev pub managed_verity_mode : Bytes
managed_verity_mode =
    97 ∷ 118 ∷ 98 ∷ 46 ∷ 109 ∷ 97 ∷ 110 ∷ 97 ∷ 103 ∷ 101 ∷ 100 ∷ 95 ∷ 118 ∷ 101 ∷ 114 ∷ 105 ∷ 116
    ∷ 121 ∷ 95 ∷ 109 ∷ 111 ∷ 100 ∷ 101 ∷ []

abbrev pub is_io_ok : AvbIoResult → Bool
is_io_ok io_ok = true
is_io_ok io_error_oom = false
is_io_ok io_error_io = false
is_io_ok io_error_no_such_partition = false
is_io_ok io_error_range_outside_partition = false
is_io_ok io_error_no_such_value = false
is_io_ok io_error_invalid_value_size = false
is_io_ok io_error_insufficient_space = false

module _ {Store : Type 0} (ops : AvbOps Store) (digest : Bytes) where
  -- A write and the mode that follows it. An error leaves the mode at its start value.
  unfoldable pub write_mode :
      Bytes → AvbHashtreeErrorMode → Exec Store (AvbIoResult × AvbHashtreeErrorMode)
  write_mode value mode = do
    io_ret ← write_value ops managed_verity_mode value
    pure (io_ret, if is_io_ok io_ret then mode else mode_restart)

  -- What follows the read of the value that is noted.
  unfoldable pub resolve_mode :
      AvbIoResult → Bytes → Exec Store (AvbIoResult × AvbHashtreeErrorMode)
  resolve_mode io_ret stored =
      if no_such_value io_ret
      then pure (io_ok, mode_restart)
      else if not (is_io_ok io_ret)
      then pure (io_ret, mode_restart)
      else if length stored == 0
      then pure (io_ok, mode_restart)
      else if not (length stored == 32)
      then pure (io_error_io, mode_restart)
      else if same_bytes digest stored
      then pure (io_ok, mode_eio)
      else write_mode [] mode_restart

  -- `digest` is that of the vbmeta images. The pair is the result and `*out_hashtree_error_mode`.
  unfoldable pub manage_mode : ℕ → Exec Store (AvbIoResult × AvbHashtreeErrorMode)
  manage_mode flags = if_null (ops.read_persistent_value) abort (λ read_persistent_value.
      if_null (ops.write_persistent_value) abort (λ write_persistent_value.
        if not (bit_and flags 2 == 0)
        then write_mode digest mode_eio
        else (read_value ops read_persistent_value managed_verity_mode 32 >>= λ answer.
            resolve_mode (answer.0) (answer.1))))

unfoldable pub avb_manage_hashtree_error_mode :
    {Store : Type 0}
    → Primitives
    → AvbOps Store
    → ℕ
    → Exec Store (AvbIoResult × AvbHashtreeErrorMode)
avb_manage_hashtree_error_mode crypto ops flags = do
  images ← gets (λ s. s.slot_data.vbmeta_images)
  manage_mode ops (avb_slot_verify_data_calculate_vbmeta_digest crypto images digest_type_sha256)
      flags
