-- ===== src/Util/Strings.antt =====
-- The string functions of avb_util.c. A `const char*` to a NUL-terminated string is the list of the
-- bytes before the NUL: each of these loops stops there. A new string that does not fit in memory
-- is `none`.
pub mod Search
pub mod Replace
use android_boot_image_edito.Common.{
  ℕ, zero, suc, ◌+◌, ◌-◌, ◌*◌, ◌/◌, ◌%◌, ◌^◌, Bool, true, false, not, ◌&&◌, leb, ltb, ◌==◌,
  if◌then◌else◌, Option, none, some, bit_and, List, Bytes, [], ◌∷◌, ◌++◌, length, take, drop,
  get_or,
}
use android_boot_image_edito.Heap.{Heap, malloc, Alloc}

-- `avb_strlen`
abbrev pub avb_strlen : Bytes → ℕ
avb_strlen = length

-- `avb_strdup`
unfoldable pub avb_strdup : Bytes → Alloc (Option Bytes)
avb_strdup str heap = let (got, heap') = malloc heap in (if got then some str else none, heap')

-- The inner loop of `avb_strstr`: the needle from `needle[m]` on against the haystack from
-- `haystack[n + m]` on, whose NUL differs from every byte of the needle.
unfoldable pub matches_from : Bytes → Bytes → Bool
matches_from [] haystack = true
matches_from (x ∷ needle) [] = false
matches_from (x ∷ needle) (y ∷ haystack) = y == x && matches_from needle haystack

-- `haystack[n] != needle[0]` fails at once for an empty needle, whose first byte is the NUL.
unfoldable pub match_at : Bytes → Bytes → Bool
unfolding matches_from
match_at [] (y ∷ haystack) = false
match_at needle [] = false
match_at (x ∷ needle) (y ∷ haystack) = if y == x then matches_from needle haystack else false

-- `avb_strstr`: the offset `haystack + n`, or `NULL`.
strstr_loop : Bytes → Bytes → ℕ → Option ℕ
strstr_loop [] needle n = none
strstr_loop (y ∷ rest) needle n =
    let more = strstr_loop rest needle (n + 1) in
    if match_at needle (y ∷ rest) then some n else more

unfoldable pub avb_strstr : Bytes → Bytes → Option ℕ
unfolding strstr_loop match_at
avb_strstr haystack needle = strstr_loop haystack needle 0

-- The loop of `avb_replace`. `str_after_last_replace` equals `str` in every round, and `ret_len` is
-- the length of `ret`. A round moves `str` forward, so `length str + 1` rounds are enough.
pub data Replaced : Type 0 where
  finished : Option Bytes → Bytes → Heap → Replaced
  out_of_memory : Option Bytes → Heap → Replaced
  out_of_fuel : Replaced

-- What one round allocates: `ret`, the text before the match, and the replacement.
abbrev grow : Option Bytes → Bytes → Bytes → Bytes
grow none before replace = before ++ replace
grow (some ret) before replace = ret ++ (before ++ replace)

replace_loop : ℕ → Bytes → Bytes → Bytes → Option Bytes → Heap → Replaced
replace_loop zero str search replace ret heap = out_of_fuel
replace_loop (suc fuel) [] search replace ret heap = finished ret [] heap
replace_loop (suc fuel) (c ∷ str) search replace ret heap = elim (avb_strstr (c ∷ str) search) [
  | none ↦ finished ret (c ∷ str) heap
  | some num_before ↦
      let (got, heap') = malloc heap in
      elim got [
        | false ↦ out_of_memory ret heap'
        | true ↦
            replace_loop fuel (drop (num_before + length search) (c ∷ str)) search replace
              (some (grow ret (take num_before (c ∷ str)) replace)) heap'
      ]
]

-- `goto out` leaves `ret` as it stands.
replace_end : Replaced → Option Bytes × Heap
unfolding avb_strdup
replace_end out_of_fuel = (none, [])
replace_end (out_of_memory ret heap) = (ret, heap)
replace_end (finished none rest heap) = avb_strdup rest heap
replace_end (finished (some ret) rest heap) =
    let (got, heap') = malloc heap in (if got then some (ret ++ rest) else some ret, heap')

unfoldable pub avb_replace : Bytes → Bytes → Bytes → Alloc (Option Bytes)
unfolding replace_loop replace_end avb_strstr
avb_replace str search replace heap =
    replace_end (replace_loop (length str + 1) str search replace none heap)
