-- ===== src/Slot/Image.antt =====
-- `load_and_verify_vbmeta`, one function for each stretch of it.
use android_boot_image_edito.Common.{
  ℕ, zero, suc, ◌-◌, ◌^◌, Bool, not, ◌&&◌, ◌||◌, leb, ◌==◌, if◌then◌else◌, Option, none, bit_and,
  Bytes, List, [], ◌∷◌, ◌++◌, length, take,
}
use android_boot_image_edito.Memory.{read}
use android_boot_image_edito.Util.Utf8.{avb_validate_utf8}
use android_boot_image_edito.Crypto.{Primitives}
use android_boot_image_edito.Footer.{avb_footer_validate_and_byteswap}
use android_boot_image_edito.Vbmeta.Header.{
  AvbVbMetaImageHeader, avb_vbmeta_image_header_to_host_byte_order,
}
use android_boot_image_edito.Vbmeta.Verify.{Verdict, avb_vbmeta_image_verify}
use android_boot_image_edito.Descriptor.Foreach.{
  store, AllDescriptors, all_got, all_outside, all_aborted, all_out_of_fuel, avb_descriptor_get_all,
}
use android_boot_image_edito.Ops.{
  AvbIoResult, io_ok, io_error_oom, io_error_no_such_partition, AvbSlotVerifyResult,
  result_error_oom, result_error_io, result_error_invalid_metadata, AvbOps, is_ok,
}
use android_boot_image_edito.Cmdline.Words.{part_boot, part_vbmeta}
use android_boot_image_edito.Slot.Exec.{
  SlotState, Outcome, done, outside, aborted, out_of_fuel, Exec, pure, leave, undefined, lift,
  if_null, ◌>>=◌, ◌>>◌, modify, check, avb_assert, or_io, allocated, function, set_slot_data,
}
use android_boot_image_edito.Slot.Load.{with_suffix, load_requested_partitions}
use android_boot_image_edito.Slot.Entries.{VbMetaCall, entries}
use android_boot_image_edito.Slot.Checks.{
  is_main, strncmp_equal, place_of, after_verify, check_key, check_rollback, record_image,
}

-- The end of the function: the rollback index is noted and the algorithm put out.
unfoldable pub note_image : {Store : Type 0} → VbMetaCall → AvbVbMetaImageHeader → Exec Store Unit
note_image call header =
    check (not (leb 32 call.rollback_index_location)) result_error_invalid_metadata
    >> set_slot_data (λ slot_data. record slot_data {
      rollback_indexes =
          store slot_data.rollback_indexes call.rollback_index_location header.rollback_index;
    })
    >> modify
        (λ s. if call.has_outputs then record s { algorithm_type = header.algorithm_type } else s)

-- What `avb_descriptor_get_all` returns.
abbrev pub got_all :
    {Store : Type 0}
    → SlotState Store
    → AllDescriptors
    → Outcome Store (Option (List (Option ℕ) × ℕ))
got_all s (all_got all heap') = done all (record s { heap = heap' })
got_all s all_outside = outside
got_all s all_aborted = aborted
got_all s all_out_of_fuel = out_of_fuel

unfoldable pub descriptors_of :
    {Store : Type 0} → ℕ → Bytes → Exec Store (Option (List (Option ℕ) × ℕ))
descriptors_of base image s = got_all s (avb_descriptor_get_all base image (length image) (s.heap))

-- `address` is where `malloc` puts the buffer of a partition.
module _ (crypto : Primitives) (address : Bytes → ℕ) {Store : Type 0} (ops : AvbOps Store)
    (requested_partitions : List Bytes) (ab_suffix : Bytes) (flags : ℕ)
    (allow_verification_error : Bool) where
  -- Where the image is in the partition.
  unfoldable pub locate_vbmeta : Bool → Bytes → Exec Store (ℕ × ℕ)
  locate_vbmeta look_for_vbmeta_footer full_partition_name =
      if look_for_vbmeta_footer
      then (let answer = ops.read_from_partition full_partition_name (2 ^ 64 - 64) 64 in
          or_io (answer.0)
          >> avb_assert (length answer.1 == 64)
          >> lift (avb_footer_validate_and_byteswap (answer.1))
          >>= λ found. pure (place_of found))
      else pure (0, 65536)

  -- `load_requested_partitions` for an image that disables the verification.
  unfoldable pub load_unverified : AvbSlotVerifyResult → Exec Store AvbSlotVerifyResult
  load_unverified ret = do
    sub_ret ← function (load_requested_partitions ops ab_suffix requested_partitions)
    pure (if is_ok sub_ret then ret else sub_ret)

  module _ (chain : VbMetaCall → Exec Store AvbSlotVerifyResult) (call : VbMetaCall) where
    -- The loop over the descriptors and the end of the function.
    unfoldable pub process_entries :
        ℕ
        → Bytes
        → Bytes
        → AvbVbMetaImageHeader
        → AvbSlotVerifyResult
        → Exec Store AvbSlotVerifyResult
    process_entries toplevel_vbmeta_flags full_partition_name image header ret = do
      all ← descriptors_of (address full_partition_name) image
      -- `num_descriptors` has no value when the array is `NULL`
      array ← if_null all undefined pure
      ret' ←
          entries crypto ops requested_partitions ab_suffix allow_verification_error chain
            (is_main flags call.rollback_index_location) toplevel_vbmeta_flags call.has_outputs
            image (take (array.1) (array.0)) ret
      note_image call header
      pure ret'

    -- From the test of the flags on, for an image that may be used.
    unfoldable pub accept_image :
        Bytes
        → Bytes
        → AvbVbMetaImageHeader
        → Verdict
        → AvbSlotVerifyResult
        → Exec Store AvbSlotVerifyResult
    accept_image full_partition_name image header verdict ret =
        let is_main_vbmeta = is_main flags call.rollback_index_location in
        do
          check (is_main_vbmeta || header.flags == 0) result_error_invalid_metadata
          key ←
              check_key ops flags allow_verification_error call full_partition_name image header
                verdict.public_key ret
          ret' ← check_rollback ops flags allow_verification_error header (key.1) (key.0)
          record_image flags call image header verdict.result
          if not (bit_and header.flags 2 == 0)
              then load_unverified ret'
              else process_entries
                  (if is_main_vbmeta then header.flags else call.toplevel_vbmeta_flags)
                  full_partition_name image header ret'

    -- From the call of `avb_vbmeta_image_verify` on.
    unfoldable pub verify_image : Bytes → Bytes → Exec Store AvbSlotVerifyResult
    verify_image full_partition_name image = do
      verdict ←
          lift (avb_vbmeta_image_verify crypto (address full_partition_name) image (length image))
      ret ← after_verify allow_verification_error verdict
      src ← lift (read image 0 256)
      accept_image full_partition_name image (avb_vbmeta_image_header_to_host_byte_order src)
          verdict ret

    -- The answer to the read of the image. `boot` is the recursive call for `"boot"`.
    unfoldable pub after_read :
        Exec Store AvbSlotVerifyResult
        → Bool
        → Bytes
        → ℕ
        → Bytes
        → AvbIoResult
        → Exec Store AvbSlotVerifyResult
    after_read boot look_for_vbmeta_footer full_partition_name vbmeta_size image io_ok =
        avb_assert (leb (length image) vbmeta_size) >> verify_image full_partition_name image
    after_read boot look_for_vbmeta_footer full_partition_name vbmeta_size image io_error_oom =
        leave result_error_oom
    after_read boot look_for_vbmeta_footer full_partition_name vbmeta_size image
          io_error_no_such_partition =
        if is_main flags call.rollback_index_location && not look_for_vbmeta_footer
        then boot
        else leave result_error_io
    after_read boot look_for_vbmeta_footer full_partition_name vbmeta_size image _ =
        leave result_error_io

    -- The whole function, over its recursive calls.
    unfoldable pub load_vbmeta : Exec Store AvbSlotVerifyResult → Exec Store AvbSlotVerifyResult
    load_vbmeta boot = function do
      is_vbmeta ← lift (strncmp_equal call.partition_name part_vbmeta)
      name ← lift (read call.partition_name 0 call.partition_name_len)
      check (avb_validate_utf8 name) result_error_invalid_metadata
      full_partition_name ← with_suffix name ab_suffix
      place ← locate_vbmeta (not is_vbmeta) full_partition_name
      allocated
      let answer = ops.read_from_partition full_partition_name (place.0) (place.1)
      after_read boot (not is_vbmeta) full_partition_name (place.1) (answer.1) (answer.0)

  -- The call for a name that `avb_slot_verify` gives, or for `"boot"`.
  abbrev pub toplevel_call : Bytes → Bool → VbMetaCall
  toplevel_call partition_name has_outputs = record {
    toplevel_vbmeta_flags = 0;
    rollback_index_location = 0;
    partition_name = partition_name ++ (0 ∷ []);
    partition_name_len = length partition_name;
    expected_public_key = none;
    expected_public_key_length = 0;
    has_outputs = has_outputs;
  }

  -- The fuel is the depth of the recursion.
  unfoldable pub load_and_verify_vbmeta : ℕ → VbMetaCall → Exec Store AvbSlotVerifyResult
  load_and_verify_vbmeta zero call s = out_of_fuel
  load_and_verify_vbmeta (suc depth) call s =
      load_vbmeta (load_and_verify_vbmeta depth) call
        (load_and_verify_vbmeta depth (toplevel_call part_boot call.has_outputs)) s
