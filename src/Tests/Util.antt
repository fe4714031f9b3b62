-- ===== src/Tests/Util.antt =====
-- The helpers of avb_util.c on words and bytes.
use android_boot_image_edito.Common.{
  ◌+◌, ◌%◌, ◌<◌, ◌^◌, ◌≡◌, ◌≢◌, ◌⊎◌, ◌↔◌, refl, arith, true, Bytes, [], ◌∷◌, take,
}
use android_boot_image_edito.Memory.{ok}
use android_boot_image_edito.Util.Checked.{avb_safe_add, safe_add_exact}
use android_boot_image_edito.Util.Compare.{avb_safe_memcmp, safe_memcmp_equality}
use android_boot_image_edito.Util.Utf8.{avb_validate_utf8, IsUtf8}
use android_boot_image_edito.Util.Utf8.Exact.{validate-IsUtf8_exact}
use android_boot_image_edito.Tests.Bytes.{all_bytes-IsBytes}

-- The largest word and 1.
safe_add_exact_example :
    ((avb_safe_add 18446744073709551615 1).0 ≡ (18446744073709551615 + 1) % 2 ^ 64)
    × (((avb_safe_add 18446744073709551615 1).1 ≡ true) ↔ (18446744073709551615 + 1 < 2 ^ 64))
    × ((avb_safe_add 18446744073709551615 1).1 ≡ true
        → (avb_safe_add 18446744073709551615 1).0 ≡ 18446744073709551615 + 1)
safe_add_exact_example = safe_add_exact 18446744073709551615 1 (omega arith) (omega arith)

abbrev left_bytes : Bytes
left_bytes = 1 ∷ 2 ∷ 3 ∷ []

abbrev right_bytes : Bytes
right_bytes = 1 ∷ 2 ∷ 4 ∷ []

safe_memcmp_equality_example :
    ((avb_safe_memcmp left_bytes right_bytes 3 ≡ ok 0) × (take 3 left_bytes ≡ take 3 right_bytes))
    ⊎ ((avb_safe_memcmp left_bytes right_bytes 3 ≡ ok 1) × (take 3 left_bytes ≢ take 3 right_bytes))
safe_memcmp_equality_example =
    safe_memcmp_equality left_bytes right_bytes 3 (omega arith) (omega arith)
      (all_bytes-IsBytes left_bytes refl) (all_bytes-IsBytes right_bytes refl)

-- The letter é.
abbrev e_acute : Bytes
e_acute = 0xc3 ∷ 0xa9 ∷ []

validate-IsUtf8_exact_example : (avb_validate_utf8 e_acute ≡ true) ↔ IsUtf8 e_acute
validate-IsUtf8_exact_example = validate-IsUtf8_exact e_acute (all_bytes-IsBytes e_acute refl)
