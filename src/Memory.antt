-- ===== src/Memory.antt =====
-- Reads of a buffer, with the access outside it as an outcome of its own.
use android_boot_image_edito.Common.{
  ℕ, suc, ◌+◌, ◌≤◌, ◌≡◌, refl, arith, leb, if◌then◌else◌, Bytes, IsBytes, IsBytes-take,
  IsBytes-drop, length, take, drop, length-take, length-drop,
}

-- `fault` is an access outside the memory that the model was given.
pub data Run {ℓ} (A : Type ℓ) : Type ℓ where
  ok : A → Run A
  fault : Run A

infixl 5 ◌>>=◌
abbrev pub ◌>>=◌ {ℓ κ} : {A : Type ℓ} {B : Type κ} → Run A → (A → Run B) → Run B
ok a >>= f = f a
fault >>= f = fault

pub bind-eq-ok {ℓ κ} :
    {A : Type ℓ} {B : Type κ} (m : Run A) (f : A → Run B) {b : B}
    → (m >>= f) ≡ ok b
    → (a : A) × (m ≡ ok a) × (f a ≡ ok b)
bind-eq-ok (ok a) f h = (a, refl, h)
bind-eq-ok fault f h = cc

-- The `n` bytes at offset `o`.
abbrev pub slice : Bytes → ℕ → ℕ → Bytes
slice bs o n = take n (drop o bs)

unfoldable pub read : Bytes → ℕ → ℕ → Run Bytes
read bs o n = if leb (o + n) (length bs) then ok (slice bs o n) else fault

pub read-ok : (bs : Bytes) (o n : ℕ) → o + n ≤ length bs → read bs o n ≡ ok (slice bs o n)
unfolding read
read-ok bs o n h = ground arith

pub read-fault : (bs : Bytes) (o n : ℕ) → suc (length bs) ≤ o + n → read bs o n ≡ fault
unfolding read
read-fault bs o n h = ground arith

pub slice-IsBytes : (bs : Bytes) (o n : ℕ) → IsBytes bs → IsBytes (slice bs o n)
slice-IsBytes bs o n h = IsBytes-take n (drop o bs) (IsBytes-drop o bs h)

pub length-slice : (bs : Bytes) (o n : ℕ) → o + n ≤ length bs → length (slice bs o n) ≡ n
length-slice bs o n h = omega (arith, length-take n (drop o bs), length-drop o bs)
