-- ===== src/Tests/Forgets.antt =====
-- A chained image that fails, and a hashtree descriptor without root digest behind it.
use android_boot_image_edito.Common.{
  ◌≡◌, refl, true, false, some, Bytes, [], ◌∷◌, ◌++◌, replicate, drop,
}
use android_boot_image_edito.Memory.{slice, read}
use android_boot_image_edito.Util.Endian.{be32, be64, load32, load64, avb_be32toh, avb_be64toh}
use android_boot_image_edito.Util.Checked.{avb_safe_add_to}
use android_boot_image_edito.Util.Compare.{same_bytes}
use android_boot_image_edito.Util.Utf8.{avb_validate_utf8}
use android_boot_image_edito.Util.Text.{avb_strdupv, strdupv_length}
use android_boot_image_edito.Ops.{
  AvbSlotVerifyResult, result_ok, result_error_verification, result_should_continue,
}
use android_boot_image_edito.Descriptor.{
  avb_descriptor_validate_and_byteswap, add_sizes, payload_fits, validate, AvbHashtreeDescriptor,
  hashtree_fields, avb_hashtree_descriptor_validate_and_byteswap, chain_partition_fields,
  avb_chain_partition_descriptor_validate_and_byteswap,
}
use android_boot_image_edito.Slot.Exec.{SlotState, done, Exec, pure, lift, or_leave, check, ◌>>=◌}
use android_boot_image_edito.Slot.Load.{strcmp_equal}
use android_boot_image_edito.Slot.Digest.{
  persistent_value_name, read_value, stored_digest, read_back, read_persistent_digest,
}
use android_boot_image_edito.Slot.Entries.{
  VbMetaCall, after_chain, root_digest_size, find_root_digest, chain_entry, by_tag,
  descriptor_entry, entries,
}
use android_boot_image_edito.Slot.Verify.{initial_state}
use android_boot_image_edito.Slot.Forgets.{WithoutDigest, entries_forget}
use android_boot_image_edito.Tests.Persistent.{store_ops}
use android_boot_image_edito.Tests.Vbmeta.{sample_crypto}

-- Tag 4, 80 bytes follow, location 1, a name of one byte and a key of three.
abbrev chain_bytes : Bytes
chain_bytes =
    replicate 7 0
    ++ (4
        ∷ (replicate 7 0
            ++ (80
                ∷ (replicate 3 0
                    ++ (1
                        ∷ (replicate 3 0
                            ++ (1
                                ∷ (replicate 3 0
                                    ++ (3 ∷ (replicate 64 0 ++ (97 ∷ 1 ∷ 2 ∷ 3 ∷ [])))))))))))

-- Tag 1, 168 bytes follow, "sha1", a name of four bytes and no root digest.
abbrev hashtree_bytes : Bytes
hashtree_bytes =
    replicate 7 0
    ++ (1
        ∷ (replicate 7 0
            ++ (168
                ∷ (replicate 56 0
                    ++ ((115 ∷ 104 ∷ 97 ∷ 49 ∷ [])
                        ++ (replicate 28 0
                            ++ (replicate 3 0
                                ++ (4 ∷ (replicate 72 0 ++ (98 ∷ 98 ∷ 98 ∷ 98 ∷ []))))))))))

abbrev two_descriptors : Bytes
two_descriptors = chain_bytes ++ hashtree_bytes

abbrev failing : VbMetaCall → Exec Bytes AvbSlotVerifyResult
failing call s = done result_error_verification s

abbrev start : SlotState Bytes
start = initial_state [] (replicate 20 5)

chain_fails :
    entries sample_crypto store_ops [] [] false failing true 0 false two_descriptors
      (some 0 ∷ [])
      result_ok
      start
    ≡ done result_error_verification start
unfolding entries descriptor_entry by_tag chain_entry after_chain lift check or_leave pure ◌>>=◌
    read avb_descriptor_validate_and_byteswap be64 be32 load64 load32 avb_be32toh avb_be64toh
    avb_chain_partition_descriptor_validate_and_byteswap chain_partition_fields validate
    payload_fits add_sizes avb_safe_add_to result_should_continue
chain_fails = refl

abbrev sample_desc : AvbHashtreeDescriptor
sample_desc = hashtree_fields hashtree_bytes

sample-WithoutDigest : WithoutDigest two_descriptors 96 sample_desc
unfolding read avb_descriptor_validate_and_byteswap be64 be32 load64 load32 avb_be32toh avb_be64toh
    avb_hashtree_descriptor_validate_and_byteswap hashtree_fields validate payload_fits add_sizes
    avb_safe_add_to
sample-WithoutDigest = record {
  src = slice hashtree_bytes 0 16;
  readable = refl;
  divisible = refl;
  tag = refl;
  valid = refl;
  no_digest = refl;
}

digest_found :
    find_root_digest store_ops [] false (drop 96 two_descriptors) sample_desc start
    ≡ done result_ok start
unfolding find_root_digest lift check or_leave pure ◌>>=◌ read be64 be32 load64 load32 avb_be32toh
    avb_be64toh hashtree_fields root_digest_size strcmp_equal same_bytes avb_validate_utf8
    read_persistent_digest read_back persistent_value_name avb_strdupv strdupv_length
    avb_safe_add_to read_value stored_digest
digest_found = refl

entries_forget_example :
    entries sample_crypto store_ops [] [] false failing true 0 false two_descriptors
      (some 0 ∷ some 96 ∷ [])
      result_ok
      start
    ≡ entries sample_crypto store_ops [] [] false failing true 0 false two_descriptors [] result_ok
        start
entries_forget_example =
    entries_forget sample_crypto store_ops [] [] false failing true 0 false two_descriptors
      (some 0 ∷ []) [] 96 sample_desc result_ok result_error_verification start start start
      chain_fails sample-WithoutDigest digest_found
