-- ===== src/Cmdline/Options.antt =====
-- `avb_append_options`: the `androidboot.*` options of the command line.
pub mod Laws
use android_boot_image_edito.Common.{
  ℕ, zero, suc, ◌+◌, ◌%◌, ◌^◌, Bool, true, false, not, leb, ◌==◌, if◌then◌else◌, Option, none, some,
  bit_and, List, Bytes, [], ◌∷◌, length,
}
use android_boot_image_edito.Heap.{Heap}
use android_boot_image_edito.Crypto.{Primitives}
use android_boot_image_edito.Ops.{
  AvbIoResult, io_ok, io_error_oom, AvbSlotVerifyResult, result_ok, result_error_oom,
  result_error_io, AvbHashtreeErrorMode, mode_restart_and_invalidate, mode_restart, mode_eio,
  mode_logging, mode_managed_restart_and_eio,
}
use android_boot_image_edito.Util.Strings.{avb_replace}
use android_boot_image_edito.Cmdline.{
  SlotCmdline, cmdline_append_option, cmdline_append_version, cmdline_append_uint64_base10,
  cmdline_append_hex,
}
use android_boot_image_edito.Cmdline.Words.{
  key_device, partuuid, key_avb_version, key_device_state, text_unlocked, text_locked, key_hash_alg,
  text_sha256, text_sha512, key_size, key_digest, text_disabled, key_invalidate, text_yes,
  text_enforcing, text_restart, text_eio, text_ignore_zero, text_logging, text_ignore, token_verity,
  key_veritymode, key_managed,
}

-- `aborted` is `avb_assert_not_reached`, which ends the program as the build defines
-- `AVB_ENABLE_DEBUG`.
pub data Appended : Type 0 where
  appended : AvbSlotVerifyResult → SlotCmdline → Appended
  aborted : Appended

-- `if (!cmdline_append_…(…)) { ret = AVB_SLOT_VERIFY_RESULT_ERROR_OOM; goto out; }`
abbrev pub or_oom : Bool × SlotCmdline → (SlotCmdline → Appended) → Appended
or_oom (done, slot_data) rest = elim done [
  | false ↦ appended result_error_oom slot_data
  | true ↦ rest slot_data
]

-- `total_size += …` in a `size_t`.
unfoldable pub total_size_of : List Bytes → ℕ → ℕ
total_size_of [] total_size = total_size
total_size_of (image ∷ images) total_size =
    total_size_of images ((total_size + length image) % 2 ^ 64)

-- One case of `switch (algorithm_type)`.
unfoldable pub append_digest : SlotCmdline → Bytes → ℕ → Bytes → (SlotCmdline → Appended) → Appended
append_digest slot_data hash_alg total_size vbmeta_digest rest =
    or_oom (cmdline_append_option slot_data key_hash_alg hash_alg) (λ slot1.
      or_oom (cmdline_append_uint64_base10 slot1 key_size total_size)
        (λ slot2. or_oom (cmdline_append_hex slot2 key_digest vbmeta_digest) rest))

-- `switch (algorithm_type)` over `AvbAlgorithmType`; 7 is `_AVB_ALGORITHM_NUM_TYPES`.
unfoldable pub append_hash_options :
    Primitives → SlotCmdline → List Bytes → ℕ → (SlotCmdline → Appended) → Appended
append_hash_options crypto slot_data vbmeta_images algorithm_type rest =
    let total_size = total_size_of vbmeta_images 0 in
    if leb algorithm_type 3
    then append_digest slot_data text_sha256 total_size (crypto.sha256 vbmeta_images) rest
    else if leb algorithm_type 6
    then append_digest slot_data text_sha512 total_size (crypto.sha512 vbmeta_images) rest
    else if algorithm_type == 7
    then aborted
    else rest slot_data

-- `slot_data->cmdline` is not `NULL` when it is replaced: options have been appended.
abbrev pub text : Option Bytes → Bytes
text none = []
text (some cmdline) = cmdline

unfoldable pub replace_verity : SlotCmdline → Bytes → (SlotCmdline → Appended) → Appended
replace_verity slot_data dm_verity_mode rest =
    let (new_ret, heap') =
      avb_replace (text slot_data.cmdline) token_verity dm_verity_mode (slot_data.heap) in
    let slot_data' : SlotCmdline = record { cmdline = new_ret; heap = heap' } in
    elim new_ret [ none ↦ appended result_error_oom slot_data' | some cmdline ↦ rest slot_data' ]

-- `switch (resolved_hashtree_error_mode)` and the replacement; `rest` takes `verity_mode`.
unfoldable pub append_error_mode :
    AvbHashtreeErrorMode → SlotCmdline → (Bytes → SlotCmdline → Appended) → Appended
append_error_mode mode_restart_and_invalidate slot_data rest =
    or_oom (cmdline_append_option slot_data key_invalidate text_yes)
      (λ slot1. replace_verity slot1 text_restart (rest text_enforcing))
append_error_mode mode_restart slot_data rest =
    replace_verity slot_data text_restart (rest text_enforcing)
append_error_mode mode_eio slot_data rest =
    replace_verity slot_data text_ignore_zero (rest text_eio)
append_error_mode mode_logging slot_data rest =
    replace_verity slot_data text_ignore (rest text_logging)
append_error_mode mode_managed_restart_and_eio slot_data rest = aborted

abbrev pub is_managed : AvbHashtreeErrorMode → Bool
is_managed mode_managed_restart_and_eio = true
is_managed _ = false

-- The options from `androidboot.veritymode` on.
unfoldable pub append_veritymode : AvbHashtreeErrorMode → Bytes → SlotCmdline → Appended
append_veritymode hashtree_error_mode verity_mode slot_data =
    or_oom (cmdline_append_option slot_data key_veritymode verity_mode) (λ slot1.
      if is_managed hashtree_error_mode
      then or_oom (cmdline_append_option slot1 key_managed text_yes)
          (λ slot2. appended result_ok slot2)
      else appended result_ok slot1)

-- From `switch (algorithm_type)` on.
unfoldable pub append_vbmeta_options :
    Primitives
    → SlotCmdline
    → List Bytes
    → ℕ
    → ℕ
    → AvbHashtreeErrorMode
    → AvbHashtreeErrorMode
    → Appended
append_vbmeta_options crypto slot_data vbmeta_images vbmeta_flags algorithm_type mode resolved =
    append_hash_options crypto slot_data vbmeta_images algorithm_type (λ slot1.
      if not (bit_and vbmeta_flags 1 == 0)
      then append_veritymode mode text_disabled slot1
      else append_error_mode resolved slot1 (append_veritymode mode))

-- `read_is_device_unlocked` is the answer of `ops`.
unfoldable pub avb_append_options :
    Primitives
    → AvbIoResult × Bool
    → ℕ
    → SlotCmdline
    → List Bytes
    → ℕ
    → ℕ
    → AvbHashtreeErrorMode
    → AvbHashtreeErrorMode
    → Appended
avb_append_options crypto read_is_device_unlocked flags slot_data vbmeta_images vbmeta_flags
      algorithm_type mode resolved =
    let device =
      if bit_and flags 4 == 0
      then cmdline_append_option slot_data key_device partuuid
      else (true, slot_data) in
    or_oom device (λ slot1. or_oom (cmdline_append_version slot1 key_avb_version 1 1) (λ slot2.
      elim read_is_device_unlocked.0 [
        | io_error_oom ↦ appended result_error_oom slot2
        | io_ok ↦
            or_oom
              (cmdline_append_option slot2 key_device_state
                (if read_is_device_unlocked.1 then text_unlocked else text_locked))
              (λ slot3.
                append_vbmeta_options crypto slot3 vbmeta_images vbmeta_flags algorithm_type mode
                  resolved)
        | _ ↦ appended result_error_io slot2
      ]))
