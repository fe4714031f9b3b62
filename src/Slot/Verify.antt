-- ===== src/Slot/Verify.antt =====
-- `avb_slot_verify` and `has_system_partition`.
use mathlib.Core.List.{map}
use android_boot_image_edito.Common.{
  ℕ, Bool, true, false, not, ◌&&◌, ◌||◌, ◌==◌, if◌then◌else◌, Option, none, some, bit_and, Bytes,
  List, [], ◌∷◌, length, replicate,
}
use android_boot_image_edito.Memory.{read}
use android_boot_image_edito.Heap.{Heap}
use android_boot_image_edito.Util.Compare.{same_bytes}
use android_boot_image_edito.Util.Strings.{avb_strdup, avb_strlen}
use android_boot_image_edito.Util.Text.{avb_str_concat}
use android_boot_image_edito.Crypto.{Primitives}
use android_boot_image_edito.Vbmeta.Header.{
  AvbVbMetaImageHeader, avb_vbmeta_image_header_to_host_byte_order,
}
use android_boot_image_edito.Ops.{
  io_ok, AvbSlotVerifyResult, result_ok, result_error_oom, result_error_invalid_argument,
  AvbHashtreeErrorMode, mode_restart, mode_logging, mode_restart_and_invalidate, mode_eio,
  mode_managed_restart_and_eio, AvbOps, result_should_continue, is_ok,
}
use android_boot_image_edito.Cmdline.Words.{token_system, part_system, part_boot, part_vbmeta}
use android_boot_image_edito.Cmdline.Options.{
  Appended, appended, aborted as append_aborted, is_managed, avb_append_options,
}
use android_boot_image_edito.Cmdline.Subst.{avb_sub_cmdline}
use android_boot_image_edito.Slot.Exec.{
  AvbVbMetaData, AvbSlotVerifyData, SlotState, Outcome, done, left, aborted, outside, out_of_fuel,
  Exec, pure, leave, abort, undefined, lift, allocate, gets, if_null, ◌>>=◌, ◌>>◌, check,
  avb_assert, or_io, allocated, set_slot_data,
}
use android_boot_image_edito.Slot.Load.{before_nul, is_some}
use android_boot_image_edito.Slot.Image.{toplevel_call, load_and_verify_vbmeta}
use android_boot_image_edito.Slot.Verity.{image_bytes, avb_manage_hashtree_error_mode}

-- "root=PARTUUID=$(ANDROID_SYSTEM_PARTUUID)"
abbrev pub root_option : Bytes
root_option = 114 ∷ 111 ∷ 111 ∷ 116 ∷ 61 ∷ 80 ∷ 65 ∷ 82 ∷ 84 ∷ 85 ∷ 85 ∷ 73 ∷ 68 ∷ 61 ∷ token_system

-- Any answer but a GUID is `false`.
unfoldable pub has_system_partition : {Store : Type 0} → AvbOps Store → Bytes → Bool
has_system_partition ops ab_suffix = elim (avb_str_concat 32 part_system ab_suffix) [
  | none ↦ false
  | some part_name ↦ elim ((ops.get_unique_guid_for_partition (before_nul part_name)).0) [
    | io_ok ↦ true
    | _ ↦ false
  ]
]

-- The checks before anything is allocated: the error of `goto fail`.
unfoldable pub bad_argument : {Store : Type 0} → AvbOps Store → ℕ → AvbHashtreeErrorMode → Bool
bad_argument ops flags mode_logging =
    bit_and flags 1 == 0
    || not (bit_and flags 4 == 0) && not (is_some (ops.validate_public_key_for_partition))
bad_argument ops flags mode_managed_restart_and_eio =
    not (is_some (ops.read_persistent_value) && is_some (ops.write_persistent_value))
    || not (bit_and flags 4 == 0) && not (is_some (ops.validate_public_key_for_partition))
bad_argument ops flags mode_restart_and_invalidate =
    not (bit_and flags 4 == 0) && not (is_some (ops.validate_public_key_for_partition))
bad_argument ops flags mode_restart =
    not (bit_and flags 4 == 0) && not (is_some (ops.validate_public_key_for_partition))
bad_argument ops flags mode_eio =
    not (bit_and flags 4 == 0) && not (is_some (ops.validate_public_key_for_partition))

-- `avb_calloc` of the struct.
abbrev pub empty_slot_data : AvbSlotVerifyData
empty_slot_data = record {
  ab_suffix = none;
  vbmeta_images = [];
  loaded_partitions = [];
  cmdline = none;
  rollback_indexes = replicate 32 0;
  resolved_hashtree_error_mode = mode_restart;
}

-- `avb_append_options` and `avb_sub_cmdline` on the state.
unfoldable pub append_options : {Store : Type 0} → Appended → Exec Store AvbSlotVerifyResult
append_options (appended ret slot) s =
    done ret
      (record s { heap = slot.heap; slot_data = record s.slot_data { cmdline = slot.cmdline } })
append_options append_aborted s = aborted

unfoldable pub substitute_cmdline :
    {Store : Type 0} → AvbOps Store → Bytes → Bool → Bytes → Exec Store Unit
substitute_cmdline ops ab_suffix using_boot_for_vbmeta cmdline = do
  substitutions ← gets (λ s. s.substitutions)
  new_cmdline ← allocate (
      avb_sub_cmdline (ops.get_unique_guid_for_partition) cmdline ab_suffix using_boot_for_vbmeta
        substitutions)
  if_null new_cmdline (leave result_error_oom)
      (λ new. set_slot_data (λ slot_data. record slot_data { cmdline = some new }))

module _ (crypto : Primitives) (address : Bytes → ℕ) {Store : Type 0} (ops : AvbOps Store)
    (requested_partitions : List Bytes) (ab_suffix : Bytes) (flags : ℕ)
    (hashtree_error_mode : AvbHashtreeErrorMode) where
  -- `allow_verification_error`
  abbrev pub allows_errors : Bool
  allows_errors = not (bit_and flags 1 == 0)

  -- `load_and_verify_vbmeta` for a name; the depth of its recursion is at most 3.
  unfoldable pub load_toplevel : Bytes → Exec Store AvbSlotVerifyResult
  load_toplevel partition_name = do
    ret ←
        load_and_verify_vbmeta crypto address ops requested_partitions ab_suffix flags allows_errors
          3
          (toplevel_call crypto address ops requested_partitions ab_suffix flags allows_errors
            partition_name true)
    check (allows_errors || is_ok ret) ret
    pure ret

  -- The loop for `AVB_SLOT_VERIFY_FLAGS_NO_VBMETA_PARTITION`.
  unfoldable pub load_each : List Bytes → AvbSlotVerifyResult → Exec Store AvbSlotVerifyResult
  load_each [] ret = pure ret
  load_each (partition_name ∷ partition_names) ret =
      load_toplevel partition_name >>= λ ret'. load_each partition_names ret'

  unfoldable pub load_images : Exec Store AvbSlotVerifyResult
  load_images =
      if bit_and flags 4 == 0
      then load_toplevel part_vbmeta
      else if length requested_partitions == 0
      then abort
      else load_each requested_partitions result_ok

  -- The command line of a slot with disabled verification.
  unfoldable pub unverified_cmdline : Exec Store Unit
  unverified_cmdline = do
    cmdline ← gets (λ s. s.slot_data.cmdline)
    avb_assert (not (is_some cmdline))
    copy ← allocate (avb_strdup (if has_system_partition ops ab_suffix then root_option else []))
    set_slot_data (λ slot_data. record slot_data { cmdline = copy })
    check (is_some copy) result_error_oom

  -- "If requested, manage dm-verity mode..."
  unfoldable pub resolved_mode : Exec Store AvbHashtreeErrorMode
  resolved_mode =
      if is_managed hashtree_error_mode
      then (do
        managed ← avb_manage_hashtree_error_mode crypto ops flags
        or_io (managed.0)
        pure (managed.1))
      else pure hashtree_error_mode

  -- The command line of a verified slot.
  unfoldable pub verified_cmdline : AvbVbMetaImageHeader → Exec Store Unit
  verified_cmdline toplevel_vbmeta = do
    mode ← resolved_mode
    set_slot_data (λ slot_data. record slot_data { resolved_hashtree_error_mode = mode })
    s ← gets (λ s. s)
    sub_ret ← append_options (
        avb_append_options crypto (ops.read_is_device_unlocked) flags
          (record { cmdline = s.slot_data.cmdline; heap = s.heap })
          (map image_bytes (s.slot_data.vbmeta_images)) toplevel_vbmeta.flags s.algorithm_type
          hashtree_error_mode mode)
    check (is_ok sub_ret) sub_ret

  -- `slot_data->vbmeta_images[0]`, and whether it is from the boot partition. Without an image the
  -- zeroed entry of the array has the name `NULL`.
  unfoldable pub first_image : List AvbVbMetaData → Exec Store (AvbVbMetaData × Bool)
  first_image [] = undefined
  first_image (image ∷ images) =
      if bit_and flags 4 == 0
      then if_null (image.partition_name) undefined (λ name.
        avb_assert (same_bytes name part_vbmeta || same_bytes name part_boot)
        >> pure (image, not (same_bytes name part_vbmeta)))
      else pure (image, false)

  -- From the choice of `using_boot_for_vbmeta` on, for the images that are recorded.
  unfoldable pub finish_with :
      AvbSlotVerifyResult → List AvbVbMetaData → Exec Store AvbSlotVerifyResult
  finish_with ret images = do
    first ← first_image images
    src ← lift (read (first.0.vbmeta_data) 0 256)
    let toplevel_vbmeta = avb_vbmeta_image_header_to_host_byte_order src
    suffix ← allocate (avb_strdup ab_suffix)
    set_slot_data (λ slot_data. record slot_data { ab_suffix = suffix })
    check (is_some suffix) result_error_oom
    if not (bit_and toplevel_vbmeta.flags 2 == 0)
        then unverified_cmdline
        else verified_cmdline toplevel_vbmeta
    cmdline ← gets (λ s. s.slot_data.cmdline)
    if_null cmdline (pure tt) (λ text.
        if avb_strlen text == 0 then pure tt else substitute_cmdline ops ab_suffix (first.1) text)
    avb_assert (allows_errors || is_ok ret)
    pure ret

  unfoldable pub finish_slot : AvbSlotVerifyResult → Exec Store AvbSlotVerifyResult
  finish_slot ret = gets (λ s. s.slot_data.vbmeta_images) >>= finish_with ret

  -- The function; `left` is `goto fail`, after which no `slot_data` is handed out. The allocations
  -- are those of the struct, its two arrays and the list of substitutions.
  unfoldable pub slot_steps : Exec Store AvbSlotVerifyResult
  slot_steps = do
    check (not (bad_argument ops flags hashtree_error_mode)) result_error_invalid_argument
    allocated
    allocated
    allocated
    allocated
    ret ← load_images
    check (result_should_continue ret) ret
    finish_slot ret

-- How a call ends: with the result, `*out_data` and the persistent values; by a failed assertion;
-- by an access outside the memory; `unfinished` is no outcome of the program.
pub data SlotResult (Store : Type 0) : Type 0 where
  verified : AvbSlotVerifyResult → Option AvbSlotVerifyData → Store → SlotResult Store
  stopped faulted unfinished : SlotResult Store

abbrev pub slot_result : {Store : Type 0} → Outcome Store AvbSlotVerifyResult → SlotResult Store
slot_result (done ret s) = verified ret (some s.slot_data) (s.store)
slot_result (left ret s) = verified ret none (s.store)
slot_result aborted = stopped
slot_result outside = faulted
slot_result out_of_fuel = unfinished

abbrev pub initial_state : {Store : Type 0} → Heap → Store → SlotState Store
initial_state heap store = record {
  heap = heap;
  store = store;
  slot_data = empty_slot_data;
  algorithm_type = 0;
  substitutions = [];
}

-- `out_data` is not `NULL`.
unfoldable pub avb_slot_verify :
    {Store : Type 0}
    → Primitives
    → (Bytes → ℕ)
    → AvbOps Store
    → List Bytes
    → Bytes
    → ℕ
    → AvbHashtreeErrorMode
    → Heap
    → Store
    → SlotResult Store
avb_slot_verify crypto address ops requested_partitions ab_suffix flags mode heap store =
    slot_result (
      slot_steps crypto address ops requested_partitions ab_suffix flags mode
        (initial_state heap store))
