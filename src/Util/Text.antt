-- ===== src/Util/Text.antt =====
-- The other string functions of aosp/libavb/src/avb/c/avb_util.c: `avb_str_concat`,
-- `avb_strv_find_str`, `avb_strdupv`, `avb_basename`, `avb_uppercase` and `avb_bin2hex`.
pub mod Join
pub mod Hex
use android_boot_image_edito.Common.{
  ℕ, zero, suc, ◌+◌, ◌-◌, ◌*◌, ◌/◌, ◌%◌, ◌^◌, Bool, true, false, not, ◌&&◌, leb, ltb, ◌==◌,
  if◌then◌else◌, Option, none, some, bit_and, List, Bytes, [], ◌∷◌, ◌++◌, length, take, drop,
  get_or,
}
use android_boot_image_edito.Heap.{Heap, malloc, Alloc}
use android_boot_image_edito.Util.Compare.{same_bytes}
use android_boot_image_edito.Util.Checked.{avb_safe_add, avb_safe_add_to}
use android_boot_image_edito.Util.Strings.{avb_strlen}

-- `avb_str_concat` of two buffers, given with their lengths: what it writes to `buf`, or `none` for
-- the answer `false`. `buf_size - 1` wraps.
unfoldable pub avb_str_concat : ℕ → Bytes → Bytes → Option Bytes
avb_str_concat buf_size str1 str2 =
    let (combined_len, fits) = avb_safe_add (length str1) (length str2) in
    if not fits
    then none
    else if ltb ((buf_size + 2 ^ 64 - 1) % 2 ^ 64) combined_len
    then none
    else some (str1 ++ (str2 ++ (0 ∷ [])))

-- The index of the string found, for the pointer to it.
find_loop : List Bytes → Bytes → ℕ → Option ℕ
find_loop [] str n = none
find_loop (s ∷ strings) str n =
    let rest = find_loop strings str (n + 1) in
    if avb_strlen s == length str && same_bytes s str then some n else rest

unfoldable pub avb_strv_find_str : List Bytes → Bytes → Option ℕ
unfolding find_loop
avb_strv_find_str strings str = find_loop strings str 0

-- The first loop of `avb_strdupv`: the total length. `none` is a call of `avb_fatal`.
unfoldable pub strdupv_length : ℕ → ℕ → Bytes → List Bytes → Option ℕ
strdupv_length num_strings total_length str [] =
    let (total', fits) = avb_safe_add_to total_length (avb_strlen str) in
    if not fits then none else if num_strings + 1 == 32 then none else some total'
strdupv_length num_strings total_length str (next ∷ args) =
    let (total', fits) = avb_safe_add_to total_length (avb_strlen str) in
    let rest = strdupv_length (num_strings + 1) total' next args in
    if not fits then none else if num_strings + 1 == 32 then none else rest

-- The second loop, from `dest` on.
abbrev pub join : Bytes → List Bytes → Bytes
join str [] = str
join str (next ∷ args) = str ++ join next args

-- `none` is the end of the program by `avb_fatal`; `avb_assert(dest == ret + total_length)` is a
-- lemma.
unfoldable pub avb_strdupv : Bytes → List Bytes → Heap → Option (Option Bytes × Heap)
avb_strdupv str args heap = elim (strdupv_length 0 0 str args) [
  | none ↦ none
  | some total_length ↦
      let (got, heap') = malloc heap in some (if got then some (join str args) else none, heap')
]

-- The loop of `avb_basename`: the offset behind the last `'/'` among the first bytes.
basename_loop : ℕ → Bytes → ℕ
basename_loop zero str = 0
basename_loop (suc n) str =
    let rest = basename_loop n str in if get_or str n 0 == 47 then n + 1 else rest

unfoldable pub avb_basename : Bytes → Bytes
unfolding basename_loop
avb_basename str =
    let len = avb_strlen str in if leb 2 len then drop (basename_loop (len - 1) str) str else str

-- `avb_uppercase`, in place.
abbrev pub uppercase_byte : ℕ → ℕ
uppercase_byte c = if leb c 0x7A && leb 0x61 c then c - 0x20 else c

unfoldable pub avb_uppercase : Bytes → Bytes
avb_uppercase [] = []
avb_uppercase (c ∷ str) = uppercase_byte c ∷ avb_uppercase str

-- `"0123456789abcdef"`
abbrev pub hex_digits : Bytes
hex_digits = 48 ∷ 49 ∷ 50 ∷ 51 ∷ 52 ∷ 53 ∷ 54 ∷ 55 ∷ 56 ∷ 57 ∷ 97 ∷ 98 ∷ 99 ∷ 100 ∷ 101 ∷ 102 ∷ []

unfoldable pub hex_loop : Bytes → Bytes
hex_loop [] = []
hex_loop (b ∷ data') =
    get_or hex_digits (b / 16) 0 ∷ get_or hex_digits (bit_and b 0x0f) 0 ∷ hex_loop data'

unfoldable pub avb_bin2hex : Bytes → Alloc (Option Bytes)
avb_bin2hex data' heap =
    let (got, heap') = malloc heap in (if got then some (hex_loop data') else none, heap')
