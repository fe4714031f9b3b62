-- ===== src/Util/Checked.antt =====
-- Overflow-checked addition of `uint64_t`: `avb_safe_add_to` and `avb_safe_add`.
use android_boot_image_edito.Common.{ℕ, ◌+◌, ◌%◌, ◌^◌, ◌<◌, ◌≡◌, ◌↔◌, arith, Bool, true, not, ltb}

-- The new `*value`, and whether the sum did not wrap.
unfoldable pub avb_safe_add_to : ℕ → ℕ → ℕ × Bool
avb_safe_add_to value value_to_add =
    let sum = (value + value_to_add) % 2 ^ 64 in (sum, not (ltb sum value))

unfoldable pub avb_safe_add : ℕ → ℕ → ℕ × Bool
unfolding avb_safe_add_to
avb_safe_add a b = avb_safe_add_to a b

-- On `uint64_t` operands the stored sum is the sum modulo 2 ^ 64 whatever the answer, the answer is
-- true exactly when the true sum fits 64 bits, and the stored value is then the true sum.
pub safe_add_exact :
    (a b : ℕ)
    → a < 2 ^ 64
    → b < 2 ^ 64
    → ((avb_safe_add a b).0 ≡ (a + b) % 2 ^ 64)
      × (((avb_safe_add a b).1 ≡ true) ↔ (a + b < 2 ^ 64))
      × ((avb_safe_add a b).1 ≡ true → (avb_safe_add a b).0 ≡ a + b)
unfolding avb_safe_add
safe_add_exact a b ha hb = ground arith
