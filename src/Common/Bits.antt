-- ===== src/Common/Bits.antt =====
-- Laws of `bit_and`, `bit_or` and `bit_xor` at variables, from the digit recursion, and a table
-- check for facts about one byte.
use Prim.Native.Nat.{
  ℕ, zero, suc, ◌+◌, ◌*◌, ◌/◌, ◌%◌, ◌^◌, ◌≤◌, ◌<◌, min, max, bit_and, bit_or, bit_xor, digits,
  bit_and-bitwise, bit_or-bitwise,
}
use mathlib.Core.Path.{◌≡◌, refl, sym, ap, ◌∙◌}
use mathlib.Core.Bool.{Bool, true, not, ◌&&◌, ◌||◌}
use native.Mathlib.Nat.{pow-suc}
use native.Mathlib.Omega.{arith}
use android_boot_image_edito.Common.Tests.{◌==◌}

-- Induction over the halves of a number.
module _ (P : ℕ → Type 0) (base : P 0) (half : (a : ℕ) → P (suc a / 2) → P (suc a)) where
  halving_below : (k a : ℕ) → a < k → P a
  halving_below zero a h = absurd (omega arith)
  halving_below (suc k) zero h = base
  halving_below (suc k) (suc a) h = half a (halving_below k (suc a / 2) (omega arith))

  halving : (a : ℕ) → P a
  halving a = halving_below (suc a) a (omega arith)

-- An operation that works digit by digit, with `rest` for what the second number has left when the
-- first has no more digits.
module _ (rest : ℕ → ℕ) (op : ℕ → ℕ → ℕ) where
  digits-zero : (k b : ℕ) → digits rest op k 0 b ≡ rest b
  digits-zero zero b = refl
  digits-zero (suc k) b = refl

  digits_stable : (k j a b : ℕ) → a ≤ k → a ≤ j → digits rest op k a b ≡ digits rest op j a b
  digits_stable k j zero b p q = digits-zero k b ∙ sym (digits-zero j b)
  digits_stable zero j (suc a) b p q = absurd (omega arith)
  digits_stable (suc k) zero (suc a) b p q = absurd (omega arith)
  digits_stable (suc k) (suc j) (suc a) b p q =
      ap (λ (high : ℕ). high * 2 + op (suc a % 2) (b % 2))
        (digits_stable k j (suc a / 2) (b / 2) (omega arith) (omega arith))

  -- The last digit of such an operation, and the others.
  last_digit :
      (f : ℕ → ℕ → ℕ)
      → ((a b : ℕ) → f a b ≡ digits rest op a a b)
      → (a b : ℕ) → f (suc a) b ≡ f (suc a / 2) (b / 2) * 2 + op (suc a % 2) (b % 2)
  last_digit f bitwise a b =
      bitwise (suc a) b
      ∙ ap (λ (high : ℕ). high * 2 + op (suc a % 2) (b % 2))
          (digits_stable a (suc a / 2) (suc a / 2) (b / 2) (omega arith) (omega arith)
            ∙ sym (bitwise (suc a / 2) (b / 2)))

no_digits-bit_and : (b : ℕ) → bit_and 0 b ≡ 0
no_digits-bit_and b = bit_and-bitwise 0 b

bit_and_step : (a b : ℕ) → bit_and a b ≡ bit_and (a / 2) (b / 2) * 2 + min (a % 2) (b % 2)
bit_and_step zero b = omega (arith, no_digits-bit_and b, no_digits-bit_and (b / 2))
bit_and_step (suc a) b = last_digit (λ x. zero) min bit_and bit_and-bitwise a b

bit_and-nil : (a : ℕ) → bit_and a 0 ≡ 0
bit_and-nil = halving (λ a. bit_and a 0 ≡ 0) refl (λ a half. omega (arith, bit_and_step (suc a) 0))

mask_one : (a : ℕ) → bit_and a 1 ≡ a % 2
mask_one a = omega (arith, bit_and-nil (a / 2), bit_and_step a 1)

-- A mask of three or six ones is a remainder.
pub bit_and_seven : (a : ℕ) → bit_and a 7 ≡ a % 8
bit_and_seven a = omega (arith, mask_one (a / 2 / 2), bit_and_step (a / 2) 3, bit_and_step a 7)

pub bit_and_63 : (a : ℕ) → bit_and a 0x3f ≡ a % 64
bit_and_63 a = omega (
  arith,
  bit_and_step a 0x3f,
  bit_and_step (a / 2) 0x1f,
  bit_and_step (a / 2 / 2) 0xf,
  bit_and_seven (a / 2 / 2 / 2),
)

pub bit_and_255 : (a : ℕ) → bit_and a 0xff ≡ a % 256
bit_and_255 a =
    omega (arith, bit_and_step a 0xff, bit_and_step (a / 2) 0x7f, bit_and_63 (a / 2 / 2))

no_digits-bit_or : (b : ℕ) → bit_or 0 b ≡ b
no_digits-bit_or b = bit_or-bitwise 0 b

bit_or_step : (a b : ℕ) → bit_or a b ≡ bit_or (a / 2) (b / 2) * 2 + max (a % 2) (b % 2)
bit_or_step zero b = omega (arith, no_digits-bit_or b, no_digits-bit_or (b / 2))
bit_or_step (suc a) b = last_digit (λ x. x) max bit_or bit_or-bitwise a b

bit_or-nil : (a : ℕ) → bit_or a 0 ≡ a
bit_or-nil = halving (λ a. bit_or a 0 ≡ a) refl (λ a half. omega (arith, bit_or_step (suc a) 0))

two_pow : (x k : ℕ) → x * 2 ^ suc k ≡ 2 * (x * 2 ^ k)
two_pow x k = omega (arith, ap (λ (t : ℕ). x * t) (pow-suc 2 k))

-- `|` of a field above bit `k` and a value below `2 ^ k` is their sum.
pub bit_or_disjoint : (k x y : ℕ) → y < 2 ^ k → bit_or (x * 2 ^ k) y ≡ x * 2 ^ k + y
bit_or_disjoint zero x y h = ground (arith, bit_or-nil x)
bit_or_disjoint (suc k) x y h =
    ground
      (arith, bit_or_step (x * 2 ^ suc k) y, two_pow x k, bit_or_disjoint k x (y / 2) (omega arith))

-- `|` is 0 only when both operands are.
pub bit_or-eq-zero : (a b : ℕ) → bit_or a b ≡ 0 → (a ≡ 0) × (b ≡ 0)
bit_or-eq-zero =
    halving (λ a. (b : ℕ) → bit_or a b ≡ 0 → (a ≡ 0) × (b ≡ 0))
      (λ b h. (refl, omega (arith, no_digits-bit_or b)))
      (λ a half b h. ground (arith, bit_or_step (suc a) b, half (b / 2)))

-- All values below `n` pass a test.
unfoldable pub holds_below : ℕ → (ℕ → Bool) → Bool
holds_below zero p = true
holds_below (suc n) p = p n && holds_below n p

pub holds_below_at : (n : ℕ) (p : ℕ → Bool) (x : ℕ) → holds_below n p ≡ true → x < n → p x ≡ true
unfolding holds_below
holds_below_at zero p x all small = absurd (omega arith)
holds_below_at (suc n) p x all small = ground (holds_below_at n p x, arith)

-- Two bytes are equal exactly when their exclusive or is 0.
abbrev xor_test : ℕ → ℕ → Bool
xor_test a b = not (bit_xor a b == 0) || a == b

xor_table : holds_below 256 (λ a. holds_below 256 (λ b. xor_test a b)) ≡ true
unfolding holds_below
xor_table = refl

pub bit_xor-eq-zero : (a b : ℕ) → a < 256 → b < 256 → bit_xor a b ≡ 0 → a ≡ b
bit_xor-eq-zero a b p q h =
    let row = holds_below_at 256 (λ a. holds_below 256 (λ b. xor_test a b)) a xor_table p in
    ground (arith, holds_below_at 256 (λ b. xor_test a b) b row q)

self_test : holds_below 256 (λ a. bit_xor a a == 0) ≡ true
unfolding holds_below
self_test = refl

pub bit_xor_self : (a : ℕ) → a < 256 → bit_xor a a ≡ 0
bit_xor_self a p = ground (arith, holds_below_at 256 (λ a. bit_xor a a == 0) a self_test p)
