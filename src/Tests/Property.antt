-- ===== src/Tests/Property.antt =====
-- An image with one property, with the key "k" and the value "42".
use android_boot_image_edito.Common.{
  ◌≡◌, refl, arith, none, some, Bytes, [], ◌∷◌, ◌++◌, ◌%◌, ◌^◌, length, replicate,
}
use android_boot_image_edito.Memory.{read}
use android_boot_image_edito.Cmdline.Digits.{decimal}
use android_boot_image_edito.Util.Endian.{avb_be64toh, load64, be64}
use android_boot_image_edito.Util.Endian.Fields.{put64}
use android_boot_image_edito.Util.Checked.{avb_safe_add_to, avb_safe_add}
use android_boot_image_edito.Util.Compare.{same_bytes}
use android_boot_image_edito.Descriptor.{
  avb_descriptor_validate_and_byteswap, add_sizes, payload_fits, validate, property_fields,
  avb_property_descriptor_validate_and_byteswap,
}
use android_boot_image_edito.Descriptor.Foreach.{
  bytes_following, total_size, foreach_loop, region_start, region_end, region_outside,
  avb_descriptor_foreach,
}
use android_boot_image_edito.Descriptor.Property.{
  compare_key, property_lookup_desc_foreach, look_at, avb_property_lookup,
  avb_property_lookup_uint64, found,
}
use android_boot_image_edito.Descriptor.Property.Decimal.{lookup_uint64_decimal}
use android_boot_image_edito.Tests.Descriptors.{header_for}

abbrev answer_image : Bytes
answer_image =
    header_for 40 ++ put64 0 (put64 24 (put64 1 (put64 2 (107 ∷ 0 ∷ 52 ∷ 50 ∷ 0 ∷ replicate 3 0))))

-- An image without the magic number: the iteration fails, and the pointer has no value.
abbrev blank_image : Bytes
blank_image = replicate 256 0

answer_found :
    avb_property_lookup 4096 answer_image (length answer_image) (107 ∷ []) 1
    ≡ found (some (some 290, some 2))
unfolding avb_property_lookup look_at property_lookup_desc_foreach compare_key
    avb_descriptor_foreach bytes_following total_size foreach_loop region_start region_end
    region_outside same_bytes read avb_be64toh load64 be64 avb_safe_add_to avb_safe_add
    avb_descriptor_validate_and_byteswap add_sizes payload_fits validate property_fields
    avb_property_descriptor_validate_and_byteswap
answer_found = refl

blank_unset :
    avb_property_lookup 4096 blank_image (length blank_image) (107 ∷ []) 1
    ≡ found (some (none, none))
unfolding avb_property_lookup avb_descriptor_foreach same_bytes read
blank_unset = refl

lookup_uint64_decimal_example :
    avb_property_lookup_uint64 4096 answer_image (length answer_image) (107 ∷ []) 1
    ≡ found (some (decimal 0 (52 ∷ 50 ∷ []) % 2 ^ 64))
lookup_uint64_decimal_example =
    lookup_uint64_decimal 4096 answer_image (length answer_image) (107 ∷ []) 1 290 (some 2) 52
      (50 ∷ []) (replicate 3 0) answer_found refl
      ((omega arith, omega arith), ((omega arith, omega arith), tt))
