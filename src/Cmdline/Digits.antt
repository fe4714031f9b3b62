-- ===== src/Cmdline/Digits.antt =====
-- `uint64_to_base10` against the value of decimal digits.
use android_boot_image_edito.Common.{
  ℕ, zero, suc, ◌+◌, ◌-◌, ◌*◌, ◌/◌, ◌%◌, ◌≤◌, ◌<◌, ◌^◌, ◌≡◌, refl, ◌∙◌, arith, true, ◌==◌,
  Bool-cases, ==_iff, Bytes, [], ◌∷◌, ◌++◌, All, length, length-append, inl, inr,
}
use android_boot_image_edito.Cmdline.{rev_digits, reverse, uint64_to_base10}

-- The value of a string of decimal digits, from left to right.
abbrev pub decimal : ℕ → Bytes → ℕ
decimal v [] = v
decimal v (c ∷ cs) = decimal (v * 10 + (c - 48)) cs

abbrev pub IsDigit : ℕ → Type 0
IsDigit c = (48 ≤ c) × (c ≤ 57)

-- The value of digits with the last one first.
abbrev rev_decimal : Bytes → ℕ
rev_decimal [] = 0
rev_decimal (c ∷ cs) = c - 48 + 10 * rev_decimal cs

decimal-append :
    (v : ℕ) (xs : Bytes) (c : ℕ) → decimal v (xs ++ (c ∷ [])) ≡ decimal v xs * 10 + (c - 48)
decimal-append v [] c = refl
decimal-append v (x ∷ xs) c = decimal-append (v * 10 + (x - 48)) xs c

decimal-reverse : (xs : Bytes) → decimal 0 (reverse xs) ≡ rev_decimal xs
decimal-reverse [] = refl
decimal-reverse (x ∷ xs) = decimal-append 0 (reverse xs) x ∙ omega (arith, decimal-reverse xs)

-- The number of values with at most `k` digits.
abbrev limit : ℕ → ℕ
limit zero = 1
limit (suc k) = 10 * limit k

last_digit : (v : ℕ) → v / 10 ≡ 0 → v % 10 + 48 - 48 + 10 * 0 ≡ v
last_digit v h = omega arith

rev_digits-value : (k v : ℕ) → v < limit k → rev_decimal (rev_digits k v) ≡ v
unfolding rev_digits
rev_digits-value zero v h = omega arith
rev_digits-value (suc k) v h = elim (Bool-cases (v / 10 == 0)) [
  | inl single ↦ rw single (last_digit v ((==_iff (v / 10) 0).0 single))
  | inr more ↦
      let rest : rev_decimal (rev_digits k (v / 10)) ≡ v / 10 =
        rev_digits-value k (v / 10) (omega arith) in
      rw more (omega arith)
]

rev_digits-length : (k m v : ℕ) → v < limit (suc m) → length (rev_digits k v) ≤ suc m
unfolding rev_digits
rev_digits-length zero m v h = omega arith
rev_digits-length (suc k) zero v h =
    let single : (v / 10 == 0) ≡ true = (==_iff (v / 10) 0).1 (omega arith) in
    rw single (omega arith)
rev_digits-length (suc k) (suc m) v h = elim (Bool-cases (v / 10 == 0)) [
  | inl single ↦ rw single (omega arith)
  | inr more ↦
      let rest : length (rev_digits k (v / 10)) ≤ suc m =
        rev_digits-length k m (v / 10) (omega arith) in
      rw more (omega arith)
]

snoc : (xs : Bytes) (x : ℕ) → All IsDigit xs → IsDigit x → All IsDigit (xs ++ (x ∷ []))
snoc [] x h p = (p, tt)
snoc (y ∷ xs) x (q, h) p = (q, snoc xs x h p)

rev_digits-IsDigit : (k v : ℕ) → All IsDigit (rev_digits k v)
unfolding rev_digits
rev_digits-IsDigit zero v = tt
rev_digits-IsDigit (suc k) v = elim (Bool-cases (v / 10 == 0)) [
  | inl single ↦ rw single ((omega arith, omega arith), tt)
  | inr more ↦ rw more ((omega arith, omega arith), rev_digits-IsDigit k (v / 10))
]

IsDigit-reverse : (xs : Bytes) → All IsDigit xs → All IsDigit (reverse xs)
IsDigit-reverse [] h = tt
IsDigit-reverse (x ∷ xs) (p, h) = snoc (reverse xs) x (IsDigit-reverse xs h) p

length-reverse : (xs : Bytes) → length (reverse xs) ≡ length xs
length-reverse [] = refl
length-reverse (x ∷ xs) = omega (arith, length-append (reverse xs) (x ∷ []), length-reverse xs)

-- The string of a 64-bit number has digits only, at most 20 of them, so that with the NUL it fits
-- the buffer of 32 bytes and the loop's bound never stops it; its decimal value is the number.
pub base10_exact :
    (value : ℕ)
    → value < 2 ^ 64
    → All IsDigit (uint64_to_base10 value)
      × (length (uint64_to_base10 value) ≤ 20)
      × (decimal 0 (uint64_to_base10 value) ≡ value)
unfolding uint64_to_base10
base10_exact value h = (
  IsDigit-reverse (rev_digits 31 value) (rev_digits-IsDigit 31 value),
  omega (arith, length-reverse (rev_digits 31 value), rev_digits-length 31 19 value (omega arith)),
  decimal-reverse (rev_digits 31 value) ∙ rev_digits-value 31 value (omega arith),
)
