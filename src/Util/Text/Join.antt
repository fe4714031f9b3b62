-- ===== src/Util/Text/Join.antt =====
-- The functions of Util/Text that put strings together or take them apart.
use android_boot_image_edito.Common.{
  ◌≤◌, ◌⊎◌, inl, inr, ◌≢◌, ◌==◌, leb, drop, ℕ, zero, suc, ◌+◌, ◌-◌, ◌<◌, ◌^◌, ◌≡◌, refl, ap, ◌∙◌,
  arith, true, false, none, some, List, Bytes, [], ◌∷◌, ◌++◌, get_or, length, length-append, ==_iff,
  Bool-cases,
}
use native.Mathlib.Decide.{dec_lt}
use android_boot_image_edito.Heap.{Heap}
use android_boot_image_edito.Util.Checked.{avb_safe_add, avb_safe_add_to}
use android_boot_image_edito.Util.Text.{
  avb_str_concat, strdupv_length, join, avb_strdupv, basename_loop, avb_basename,
}

-- With a buffer of at least one byte, the two strings and the NUL are written exactly when they fit
-- in it. Lengths and sizes are 64-bit words.
pub str_concat_fits :
    (buf_size : ℕ) (str1 str2 : Bytes)
    → 1 ≤ buf_size
    → buf_size < 2 ^ 64
    → length str1 < 2 ^ 64
    → length str2 < 2 ^ 64
    → ((avb_str_concat buf_size str1 str2 ≡ some (str1 ++ (str2 ++ (0 ∷ []))))
        × (length str1 + length str2 + 1 ≤ buf_size))
      ⊎ ((avb_str_concat buf_size str1 str2 ≡ none) × (buf_size < length str1 + length str2 + 1))
unfolding avb_str_concat avb_safe_add
str_concat_fits buf_size str1 str2 a b c d = ground arith

-- A buffer of no bytes is taken for one of 2 ^ 64 - 1 bytes and a NUL: strings of any lengths whose
-- sum is a word are written to it.
pub str_concat_empty_buffer :
    (str1 str2 : Bytes)
    → length str1 + length str2 < 2 ^ 64
    → avb_str_concat 0 str1 str2 ≡ some (str1 ++ (str2 ++ (0 ∷ [])))
unfolding avb_str_concat avb_safe_add
str_concat_empty_buffer str1 str2 h = ground arith

abbrev pub total : Bytes → List Bytes → ℕ
total str [] = length str
total str (next ∷ args) = length str + total next args

length-join : (str : Bytes) (args : List Bytes) → length (join str args) ≡ total str args
length-join str [] = refl
length-join str (next ∷ args) =
    omega (arith, length-append str (join next args), length-join next args)

add_to-fits : (a b : ℕ) → a + b < 2 ^ 64 → avb_safe_add_to a b ≡ (a + b, true)
unfolding avb_safe_add_to
add_to-fits a b h = ground arith

pub strdupv_length-total :
    (k sum : ℕ) (str : Bytes) (args : List Bytes)
    → k + 1 + length args < 32
    → sum + total str args < 2 ^ 64
    → strdupv_length k sum str args ≡ some (sum + total str args)
unfolding strdupv_length
strdupv_length-total k sum str [] h w =
    let fits = add_to-fits sum (length str) w in
    let few : (k + 1 == 32) ≡ false = ground arith in rw (fits, few)
strdupv_length-total k sum str (next ∷ args) h w =
    let fits = add_to-fits sum (length str) (omega arith) in
    let few : (k + 1 == 32) ≡ false = ground arith in
    let rest =
      strdupv_length-total (k + 1) (sum + length str) next args (omega arith) (omega arith) in
    rw (fits, few, rest) (ap some (omega arith))

-- Up to 31 strings whose lengths sum to a word are joined in their order when `malloc` succeeds,
-- and the block, of the total length and a NUL, is filled.
pub strdupv_joins :
    (str : Bytes) (args : List Bytes) (heap : Heap)
    → 1 + length args < 32
    → total str args < 2 ^ 64
    → (strdupv_length 0 0 str args ≡ some (length (join str args)))
      × (avb_strdupv str args (true ∷ heap) ≡ some (some (join str args), heap))
unfolding avb_strdupv
strdupv_joins str args heap h w =
    let sum = strdupv_length-total 0 0 str args (omega arith) (omega arith) in
    let same : 0 + total str args ≡ length (join str args) = omega (arith, length-join str args) in
    (sum ∙ ap some same, rw (sum, avb_strdupv))

-- The walk of `avb_basename` stops behind the last separator among the first `n` bytes.
abbrev pub IsBehindSlash : Bytes → ℕ → ℕ → Type 0
IsBehindSlash str n o =
    (o ≤ n)
    × ((o ≡ 0) ⊎ (get_or str (o - 1) 0 ≡ 47))
    × ((i : ℕ) → o ≤ i → i < n → get_or str i 0 ≢ 47)

basename_loop-IsBehindSlash : (n : ℕ) (str : Bytes) → IsBehindSlash str n (basename_loop n str)
unfolding basename_loop
basename_loop-IsBehindSlash zero str = (omega arith, inl refl, λ i a b. absurd (omega arith))
basename_loop-IsBehindSlash (suc n) str = elim (Bool-cases (get_or str n 0 == 47)) [
  | inl slash ↦
      let back : n + 1 - 1 ≡ n = omega arith in
      rw slash (
        omega arith,
        inr (ap (λ (k : ℕ). get_or str k 0) back ∙ (==_iff _ 47).0 slash),
        λ i a b. absurd (omega arith),
      )
  | inr other ↦
      let (a, b, c) = basename_loop-IsBehindSlash n str in
      rw other (
        omega arith,
        b,
        λ i p q e. elim (dec_lt i n) [
          | yes before ↦ c i p before e
          | no after ↦
              let here : n ≡ i = omega arith in
              let found =
                (==_iff (get_or str n 0) 47).1 (ap (λ (k : ℕ). get_or str k 0) here ∙ e) in
              cc (found, other)
        ],
      )
]

-- `avb_basename` returns the end of the string from an offset on that is 0 or behind a `'/'`, and
-- from there on no byte but the string's last is a `'/'`.
pub basename_exact :
    (str : Bytes) → (o : ℕ) × (avb_basename str ≡ drop o str) × IsBehindSlash str (length str - 1) o
unfolding avb_basename
basename_exact str = elim (dec_lt (length str) 2) [
  | no long ↦
      let test : leb 2 (length str) ≡ true = ground arith in
      (
        basename_loop (length str - 1) str,
        rw test,
        basename_loop-IsBehindSlash (length str - 1) str,
      )
  | yes short ↦
      let test : leb 2 (length str) ≡ false = ground arith in
      (0, rw test, (omega arith, inl refl, λ i a b. absurd (omega arith)))
]
