-- ===== src/Tests/Hash.antt =====
-- A partition of six bytes whose descriptor has a salt of two bytes and a SHA-256 digest.
use android_boot_image_edito.Common.{
  ◌≡◌, refl, true, false, none, some, Bytes, [], ◌∷◌, ◌++◌, replicate, length,
}
use android_boot_image_edito.Memory.{ok, read}
use android_boot_image_edito.Descriptor.{
  AvbHashDescriptor, avb_hash_descriptor_validate_and_byteswap,
}
use android_boot_image_edito.Util.Utf8.{avb_validate_utf8}
use android_boot_image_edito.Util.Endian.Fields.{put32, put64}
use android_boot_image_edito.Ops.{AvbOps, io_ok, result_ok, AvbSlotVerifyResult}
use android_boot_image_edito.Slot.Exec.{SlotState, Outcome, done}
use android_boot_image_edito.Slot.Verify.{initial_state}
use android_boot_image_edito.Slot.Hash.{load_and_verify_hash_partition}
use android_boot_image_edito.Slot.Hash.Verified.{HashOk, hash_partition-HashOk}
use android_boot_image_edito.Tests.Bytes.{all_bytes-IsBytes}
use android_boot_image_edito.Tests.Vbmeta.{sample_crypto}
use android_boot_image_edito.Slot.Exec.{
  pure, leave, undefined, lift, allocate, gets, or_leave, ◌>>=◌, check, or_io, allocated, function,
  set_slot_data,
}
use android_boot_image_edito.Slot.Load.{
  strcmp_equal, with_suffix, preloaded_partition, load_full_partition, size_of_partition,
  room_for_partition,
}
use android_boot_image_edito.Slot.Hash.{
  hash_part_name, image_digest, wanted_digest, check_digest, keep_image, verify_requested,
}
use android_boot_image_edito.Util.Text.{avb_str_concat, avb_strv_find_str}
use android_boot_image_edito.Util.Strings.{avb_strdup}
use android_boot_image_edito.Util.Compare.{avb_safe_memcmp, same_bytes}
use android_boot_image_edito.Util.Checked.{avb_safe_add_to, avb_safe_add}
use android_boot_image_edito.Util.Endian.{avb_be32toh, avb_be64toh, load32, load64, be32, be64}
use android_boot_image_edito.Descriptor.{
  avb_descriptor_validate_and_byteswap, add_sizes, payload_fits, validate, hash_fields,
}
use android_boot_image_edito.Ops.{result_should_continue}

-- The name "boot", the salt, the digest, and padding.
abbrev boot_descriptor : Bytes
boot_descriptor = put64 2 (
    put64 160 (
      put64 6 (
        (115 ∷ 104 ∷ 97 ∷ 50 ∷ 53 ∷ 54 ∷ [])
        ++ replicate 26 0
        ++ put32 4 (
            put32 2 (
              put32 32 (
                put32 0 (
                  replicate 60 0
                  ++ (98 ∷ 111 ∷ 111 ∷ 116 ∷ [])
                  ++ (170 ∷ 187 ∷ [])
                  ++ replicate 32 7
                  ++ replicate 6 0)))))))

abbrev boot_ops : AvbOps Bytes
boot_ops = record {
  read_from_partition = λ name o n. (io_ok, 1 ∷ 2 ∷ 3 ∷ 4 ∷ 5 ∷ 6 ∷ []);
  get_preloaded_partition = none;
  validate_vbmeta_public_key = λ key metadata. (io_ok, true);
  read_rollback_index = λ location. (io_ok, 0);
  read_is_device_unlocked = (io_ok, false);
  get_unique_guid_for_partition = λ name. (io_ok, []);
  get_size_of_partition = λ name. (io_ok, 6);
  read_persistent_value = none;
  write_persistent_value = none;
  validate_public_key_for_partition = none;
}

abbrev boot_run : Outcome Bytes AvbSlotVerifyResult
boot_run =
    load_and_verify_hash_partition sample_crypto boot_ops ((98 ∷ 111 ∷ 111 ∷ 116 ∷ []) ∷ []) []
      false boot_descriptor (initial_state [] [])

abbrev state_after : Outcome Bytes AvbSlotVerifyResult → SlotState Bytes
state_after (done ret s) = s
state_after _ = initial_state [] []

boot_loaded : boot_run ≡ done result_ok (state_after boot_run)
unfolding pure leave undefined lift allocate gets or_leave ◌>>=◌ check or_io allocated function
    set_slot_data strcmp_equal with_suffix preloaded_partition load_full_partition size_of_partition
    room_for_partition hash_part_name image_digest wanted_digest check_digest keep_image
    verify_requested load_and_verify_hash_partition avb_str_concat avb_strv_find_str avb_strdup
    avb_safe_memcmp same_bytes avb_validate_utf8 avb_safe_add_to avb_safe_add avb_be32toh
    avb_be64toh load32 load64 be32 be64 read avb_descriptor_validate_and_byteswap add_sizes
    payload_fits validate hash_fields avb_hash_descriptor_validate_and_byteswap
    result_should_continue
boot_loaded = refl

hash_partition-HashOk_example :
    (desc : AvbHashDescriptor) × (name : Bytes) × (avb_hash_descriptor_validate_and_byteswap
        boot_descriptor
      ≡ ok (some desc))
    × (read boot_descriptor 132 desc.partition_name_len ≡ ok name)
    × (avb_validate_utf8 name ≡ true)
    × HashOk sample_crypto boot_ops
        ((98 ∷ 111 ∷ 111 ∷ 116 ∷ []) ∷ [])
        []
        false
        boot_descriptor
        desc
        name
        (initial_state {Store = Bytes} [] []).slot_data
        (state_after boot_run).slot_data
hash_partition-HashOk_example =
    hash_partition-HashOk sample_crypto boot_ops ((98 ∷ 111 ∷ 111 ∷ 116 ∷ []) ∷ []) [] false
      boot_descriptor (initial_state [] []) (state_after boot_run)
      (all_bytes-IsBytes boot_descriptor refl) boot_loaded

-- The partition is among the loaded ones.
boot_kept : length (state_after boot_run).slot_data.loaded_partitions ≡ 1
unfolding pure leave undefined lift allocate gets or_leave ◌>>=◌ check or_io allocated function
    set_slot_data strcmp_equal with_suffix preloaded_partition load_full_partition size_of_partition
    room_for_partition hash_part_name image_digest wanted_digest check_digest keep_image
    verify_requested load_and_verify_hash_partition avb_str_concat avb_strv_find_str avb_strdup
    avb_safe_memcmp same_bytes avb_validate_utf8 avb_safe_add_to avb_safe_add avb_be32toh
    avb_be64toh load32 load64 be32 be64 read avb_descriptor_validate_and_byteswap add_sizes
    payload_fits validate hash_fields avb_hash_descriptor_validate_and_byteswap
    result_should_continue
boot_kept = refl
