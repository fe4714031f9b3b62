-- ===== src/Tests/Slot.antt =====
-- A slot whose vbmeta partition holds the sample image.
use android_boot_image_edito.Slot.Exec.{
  pure, leave, abort, undefined, lift, allocate, gets, or_leave, ◌>>=◌, modify, check, avb_assert,
  or_io, allocated, function, set_slot_data, AvbSlotVerifyData,
}
use android_boot_image_edito.Slot.Load.{
  string_at, strcmp_equal, with_suffix, preloaded_partition, load_full_partition, size_of_partition,
  room_for_partition, load_requested_partition, load_requested_partitions,
}
use android_boot_image_edito.Slot.Digest.{
  persistent_value_name, stored_digest, read_value, write_value, read_back,
  initialize_persistent_digest, read_persistent_digest,
}
use android_boot_image_edito.Slot.Hash.{
  hash_part_name, image_digest, wanted_digest, check_digest, keep_image, verify_requested,
  load_and_verify_hash_partition,
}
use android_boot_image_edito.Slot.Entries.{
  after_chain, after_hash, apply_cmdline, extend_cmdline, kernel_cmdline_entry, root_digest_size,
  add_root_digest, find_root_digest, hashtree_entry, chain_entry, by_tag, descriptor_entry, entries,
}
use android_boot_image_edito.Slot.Image.{
  note_image, locate_vbmeta, descriptors_of, load_unverified, process_entries, accept_image,
  verify_image, after_read, load_vbmeta, load_and_verify_vbmeta,
}
use android_boot_image_edito.Slot.Checks.{
  strncmp_equal, after_verify, tolerate, key_metadata, trusted_key, chained_key, anchored_key,
  check_key, check_rollback, record_image,
}
use android_boot_image_edito.Slot.Verity.{
  avb_slot_verify_data_calculate_vbmeta_digest, write_mode, resolve_mode, manage_mode,
  avb_manage_hashtree_error_mode,
}
use android_boot_image_edito.Slot.Verify.{
  has_system_partition, bad_argument, append_options, substitute_cmdline, load_toplevel, load_each,
  load_images, unverified_cmdline, resolved_mode, verified_cmdline, first_image, finish_with,
  finish_slot, slot_steps, SlotResult, verified, unfinished, empty_slot_data, avb_slot_verify,
}
use android_boot_image_edito.Cmdline.{
  uint64_to_base10, cmdline_append_option, cmdline_append_version, cmdline_append_uint64_base10,
  cmdline_append_hex,
}
use android_boot_image_edito.Cmdline.Options.{
  total_size_of, append_digest, append_hash_options, replace_verity, append_error_mode,
  append_veritymode, append_vbmeta_options, avb_append_options,
}
use android_boot_image_edito.Cmdline.Subst.{
  guid_round, guid_loop, subst_loop, avb_sub_cmdline, add_value, add_token,
  avb_add_root_digest_substitution,
}
use android_boot_image_edito.Util.Text.{
  avb_str_concat, avb_strv_find_str, strdupv_length, avb_strdupv, avb_basename, avb_uppercase,
  hex_loop, avb_bin2hex,
}
use android_boot_image_edito.Util.Strings.{
  avb_strdup, matches_from, match_at, avb_strstr, avb_replace,
}
use android_boot_image_edito.Util.Compare.{avb_safe_memcmp, same_bytes}
use android_boot_image_edito.Util.Utf8.{avb_validate_utf8}
use android_boot_image_edito.Util.Checked.{avb_safe_add_to, avb_safe_add}
use android_boot_image_edito.Util.Endian.{avb_be32toh, avb_be64toh, load32, load64, be32, be64}
use android_boot_image_edito.Memory.{read}
use android_boot_image_edito.Descriptor.{
  avb_descriptor_validate_and_byteswap, add_sizes, payload_fits, validate, property_fields,
  avb_property_descriptor_validate_and_byteswap, hash_fields,
  avb_hash_descriptor_validate_and_byteswap, hashtree_fields,
  avb_hashtree_descriptor_validate_and_byteswap, kernel_cmdline_fields,
  avb_kernel_cmdline_descriptor_validate_and_byteswap, chain_partition_fields,
  avb_chain_partition_descriptor_validate_and_byteswap,
}
use android_boot_image_edito.Descriptor.Foreach.{
  bytes_following, total_size, foreach_loop, region_start, region_end, region_outside,
  avb_descriptor_foreach, count_descriptors, set_descriptors, set_all, avb_descriptor_get_all,
}
use android_boot_image_edito.Vbmeta.Header.{avb_vbmeta_image_header_to_host_byte_order}
use android_boot_image_edito.Vbmeta.Verify.{
  leaves_block, block_sizes_valid, ranges_valid, header_failure, computed_hash, verify_signature,
  verify_hash, with_digest, with_algorithm, verify_blocks, with_header, avb_vbmeta_image_verify,
}
use android_boot_image_edito.Crypto.{avb_get_algorithm_data}
use android_boot_image_edito.Ops.{
  AvbSlotVerifyResult, result_should_continue, io_ok, result_ok, mode_restart, AvbOps,
}
use android_boot_image_edito.Footer.{footer_fields, avb_footer_validate_and_byteswap}
use android_boot_image_edito.Common.{
  ℕ, ◌≤◌, ◌<◌, ◌^◌, ◌≡◌, ◌≢◌, refl, arith, Bool, true, false, none, some, Bytes, IsBytes, [], ◌∷◌,
  length, All,
}
use android_boot_image_edito.Heap.{Plenty}
use android_boot_image_edito.Slot.Trust.{IsTrusted}
use android_boot_image_edito.Slot.Trusted.{
  slot_verify-Trusted, slot_verify_bounded, slot_verify_ends,
}
use android_boot_image_edito.Tests.Vbmeta.{sample_crypto, sample_image, sample_image-IsBytes}

abbrev sample_ops : AvbOps Bool
sample_ops = record {
  read_from_partition = λ name o n. (io_ok, sample_image);
  get_preloaded_partition = none;
  validate_vbmeta_public_key = λ key metadata. (io_ok, true);
  read_rollback_index = λ location. (io_ok, 2);
  read_is_device_unlocked = (io_ok, false);
  get_unique_guid_for_partition = λ name. (io_ok, 49 ∷ 50 ∷ []);
  get_size_of_partition = λ name. (io_ok, 384);
  read_persistent_value = none;
  write_persistent_value = none;
  validate_public_key_for_partition = none;
}

abbrev sample_run : SlotResult Bool
sample_run =
    avb_slot_verify sample_crypto (λ name. 4096) sample_ops [] [] 0 mode_restart Plenty true

abbrev slot_of : SlotResult Bool → AvbSlotVerifyData
slot_of (verified ret (some slot_data) store) = slot_data
slot_of _ = empty_slot_data

sample_slot : sample_run ≡ verified result_ok (some (slot_of sample_run)) true
unfolding pure leave abort undefined lift allocate gets or_leave ◌>>=◌ modify check avb_assert or_io
    allocated function set_slot_data string_at strcmp_equal with_suffix preloaded_partition
    load_full_partition size_of_partition room_for_partition load_requested_partition
    load_requested_partitions persistent_value_name stored_digest read_value write_value read_back
    initialize_persistent_digest read_persistent_digest hash_part_name image_digest wanted_digest
    check_digest keep_image verify_requested load_and_verify_hash_partition after_chain after_hash
    apply_cmdline extend_cmdline kernel_cmdline_entry root_digest_size add_root_digest
    find_root_digest hashtree_entry chain_entry by_tag descriptor_entry entries strncmp_equal
    after_verify tolerate key_metadata trusted_key chained_key anchored_key check_key check_rollback
    record_image note_image locate_vbmeta descriptors_of load_unverified process_entries
    accept_image verify_image after_read load_vbmeta load_and_verify_vbmeta
    avb_slot_verify_data_calculate_vbmeta_digest write_mode resolve_mode manage_mode
    avb_manage_hashtree_error_mode has_system_partition bad_argument append_options
    substitute_cmdline load_toplevel load_each load_images unverified_cmdline resolved_mode
    verified_cmdline first_image finish_with finish_slot slot_steps avb_slot_verify uint64_to_base10
    cmdline_append_option cmdline_append_version cmdline_append_uint64_base10 cmdline_append_hex
    total_size_of append_digest append_hash_options replace_verity append_error_mode
    append_veritymode append_vbmeta_options avb_append_options guid_round guid_loop subst_loop
    avb_sub_cmdline add_value add_token avb_add_root_digest_substitution avb_str_concat
    avb_strv_find_str strdupv_length avb_strdupv avb_basename avb_uppercase hex_loop avb_bin2hex
    avb_strdup matches_from match_at avb_strstr avb_replace avb_safe_memcmp same_bytes
    avb_validate_utf8 avb_safe_add_to avb_safe_add avb_be32toh avb_be64toh load32 load64 be32 be64
    read avb_descriptor_validate_and_byteswap add_sizes payload_fits validate property_fields
    avb_property_descriptor_validate_and_byteswap hash_fields
    avb_hash_descriptor_validate_and_byteswap hashtree_fields
    avb_hashtree_descriptor_validate_and_byteswap kernel_cmdline_fields
    avb_kernel_cmdline_descriptor_validate_and_byteswap chain_partition_fields
    avb_chain_partition_descriptor_validate_and_byteswap bytes_following total_size foreach_loop
    region_start region_end region_outside avb_descriptor_foreach count_descriptors set_descriptors
    set_all avb_descriptor_get_all avb_vbmeta_image_header_to_host_byte_order leaves_block
    block_sizes_valid ranges_valid header_failure computed_hash verify_signature verify_hash
    with_digest with_algorithm verify_blocks with_header avb_vbmeta_image_verify
    avb_get_algorithm_data result_should_continue footer_fields avb_footer_validate_and_byteswap
sample_slot = refl

reads-IsBytes : (name : Bytes) (o n : ℕ) → IsBytes (sample_ops.read_from_partition name o n).1
reads-IsBytes name o n = sample_image-IsBytes

low_address : (name : Bytes) → 4096 < 2 ^ 64
low_address name = omega arith

slot_verify-Trusted_example :
    (◌≡◌ {A = AvbSlotVerifyResult} result_ok result_ok)
    × ((slot_of sample_run).vbmeta_images ≢ [])
    × All (IsTrusted sample_crypto (λ name. 4096) sample_ops) (slot_of sample_run).vbmeta_images
slot_verify-Trusted_example =
    slot_verify-Trusted sample_crypto (λ name. 4096) sample_ops [] [] 0 mode_restart low_address
      reads-IsBytes Plenty true result_ok (slot_of sample_run) true refl sample_slot

slot_verify_bounded_example :
    (1 ≤ length (slot_of sample_run).vbmeta_images)
    × (length (slot_of sample_run).vbmeta_images ≤ 32)
    × (length (slot_of sample_run).loaded_partitions ≤ 32)
slot_verify_bounded_example =
    slot_verify_bounded sample_crypto (λ name. 4096) sample_ops [] [] 0 mode_restart low_address
      reads-IsBytes Plenty true result_ok (slot_of sample_run) true sample_slot

slot_verify_ends_example : sample_run ≢ unfinished
slot_verify_ends_example =
    slot_verify_ends sample_crypto (λ name. 4096) sample_ops [] [] 0 mode_restart low_address
      reads-IsBytes Plenty true
