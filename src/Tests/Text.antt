-- ===== src/Tests/Text.antt =====
-- The string functions of avb_util.c.
use android_boot_image_edito.Common.{
  ◌*◌, ℕ, ◌+◌, ◌≤◌, ◌<◌, ◌≡◌, ◌⊎◌, refl, arith, true, false, some, none, Bytes, [], ◌∷◌, ◌++◌, take,
  length,
}
use android_boot_image_edito.Heap.{Plenty}
use android_boot_image_edito.Util.Strings.{avb_strstr, avb_replace}
use android_boot_image_edito.Util.Strings.Search.{OccursAt, strstr_first}
use android_boot_image_edito.Util.Strings.Replace.{ReplacesTo, replace_all, replace_truncates}
use android_boot_image_edito.Util.Text.{
  avb_str_concat, strdupv_length, join, avb_strdupv, avb_bin2hex,
}
use android_boot_image_edito.Util.Text.Hex.{decode_hex, bin2hex_roundtrip}
use android_boot_image_edito.Util.Text.Join.{
  str_concat_fits, str_concat_empty_buffer, strdupv_joins,
}
use android_boot_image_edito.Tests.Bytes.{all_bytes-IsBytes}

-- "abcb"
abbrev abcb : Bytes
abcb = 97 ∷ 98 ∷ 99 ∷ 98 ∷ []

-- "b"
abbrev b : Bytes
b = 98 ∷ []

strstr_first_example : (n : ℕ) × (avb_strstr abcb b ≡ some n) × OccursAt b abcb n × (n ≤ 3)
strstr_first_example = strstr_first 98 [] abcb 3 ([], refl)

replace_all_example :
    (out : Bytes) × (avb_replace abcb b (120 ∷ 121 ∷ []) Plenty ≡ (some out, Plenty))
    × ReplacesTo b (120 ∷ 121 ∷ []) abcb out
replace_all_example = replace_all 98 [] (120 ∷ 121 ∷ []) abcb

found : avb_strstr abcb b ≡ some 1
unfolding avb_strstr
found = refl

-- The "cb" behind the first replacement is lost.
replace_truncates_example :
    (avb_replace abcb b (120 ∷ []) (true ∷ false ∷ [])).0 ≡ some (take 1 abcb ++ (120 ∷ []))
replace_truncates_example = replace_truncates 97 1 (98 ∷ 99 ∷ 98 ∷ []) b (120 ∷ []) [] found

str_concat_fits_example :
    ((avb_str_concat 6 abcb b ≡ some (abcb ++ (b ++ (0 ∷ [])))) × (length abcb + length b + 1 ≤ 6))
    ⊎ ((avb_str_concat 6 abcb b ≡ none) × (6 < length abcb + length b + 1))
str_concat_fits_example =
    str_concat_fits 6 abcb b (omega arith) (omega arith) (omega arith) (omega arith)

str_concat_empty_buffer_example : avb_str_concat 0 abcb b ≡ some (abcb ++ (b ++ (0 ∷ [])))
str_concat_empty_buffer_example = str_concat_empty_buffer abcb b (omega arith)

strdupv_joins_example :
    (strdupv_length 0 0 abcb (b ∷ b ∷ []) ≡ some (length (join abcb (b ∷ b ∷ []))))
    × (avb_strdupv abcb (b ∷ b ∷ []) (true ∷ []) ≡ some (some (join abcb (b ∷ b ∷ [])), []))
strdupv_joins_example = strdupv_joins abcb (b ∷ b ∷ []) [] (omega arith) (omega arith)

-- "a/bc/"
abbrev path_name : Bytes
path_name = 97 ∷ 47 ∷ 98 ∷ 99 ∷ 47 ∷ []

bin2hex_roundtrip_example :
    (hex : Bytes) × (avb_bin2hex abcb (true ∷ []) ≡ (some hex, []))
    × (length hex ≡ 2 * length abcb)
    × (decode_hex hex ≡ abcb)
bin2hex_roundtrip_example = bin2hex_roundtrip abcb [] (all_bytes-IsBytes abcb refl)
