-- ===== src/Util/Compare.antt =====
-- `avb_safe_memcmp`: the comparison with no branch on the data.
use android_boot_image_edito.Common.{Bool, true, false, ◌&&◌, ◌==◌, [], ◌∷◌}
use android_boot_image_edito.Common.{
  ◌↔◌, Bool-cases, ℕ, zero, suc, ◌≤◌, ◌≡◌, ◌≢◌, refl, sym, ◌∙◌, arith, ◌⊎◌, inl, inr, bit_or,
  bit_xor, Bytes, IsByte, IsBytes, [], ◌∷◌, length, take, ◌==◌, if◌then◌else◌,
}
use android_boot_image_edito.Common.Bits.{bit_or-eq-zero, bit_xor-eq-zero, bit_xor_self}
use android_boot_image_edito.Memory.{Run, ok, fault, ◌>>=◌, bind-eq-ok}

-- `while (n--) result |= *us1++ ^ *us2++;` over the memory behind the two pointers.
memcmp_loop : ℕ → Bytes → Bytes → ℕ → Run ℕ
memcmp_loop zero us1 us2 result = ok result
memcmp_loop (suc n) [] us2 result = fault
memcmp_loop (suc n) (a ∷ us1) [] result = fault
memcmp_loop (suc n) (a ∷ us1) (b ∷ us2) result = memcmp_loop n us1 us2 (bit_or result (bit_xor a b))

unfoldable pub avb_safe_memcmp : Bytes → Bytes → ℕ → Run ℕ
unfolding memcmp_loop
avb_safe_memcmp s1 s2 n =
    if n == 0 then ok 0 else memcmp_loop n s1 s2 0 >>= λ result. ok (if result == 0 then 0 else 1)

or-xor-zero :
    (start a b : ℕ)
    → IsByte a
    → IsByte b
    → (bit_or start (bit_xor a b) ≡ 0) ↔ ((start ≡ 0) × (a ≡ b))
or-xor-zero start a b ha hb = (
  λ e. let (p, q) = bit_or-eq-zero start (bit_xor a b) e in (p, bit_xor-eq-zero a b ha hb q),
  λ e. rw (e.0, e.1, bit_xor_self b hb),
)

memcmp_loop_lem :
    (n : ℕ) (s1 s2 : Bytes) (start : ℕ)
    → n ≤ length s1
    → n ≤ length s2
    → IsBytes s1
    → IsBytes s2
    → (r : ℕ) × (memcmp_loop n s1 s2 start ≡ ok r)
      × ((r ≡ 0) ↔ ((start ≡ 0) × (take n s1 ≡ take n s2)))
unfolding memcmp_loop
memcmp_loop_lem zero s1 s2 start h k b c = (start, refl, ((λ e. (e, refl)), λ e. e.0))
memcmp_loop_lem (suc n) [] s2 start h k b c = absurd (omega arith)
memcmp_loop_lem (suc n) (x ∷ s1) [] start h k b c = absurd (omega arith)
memcmp_loop_lem (suc n) (x ∷ s1) (y ∷ s2) start h k b c =
    let (r, e, iff) =
      memcmp_loop_lem n s1 s2 (bit_or start (bit_xor x y)) (omega arith) (omega arith) b.1 c.1 in
    let step = or-xor-zero start x y b.0 c.0 in
    (
      r,
      e,
      (
        (λ z. let (p, q) = iff.0 z in ((step.0 p).0, cc ((step.0 p).1, q))),
        λ z. iff.1 (step.1 (z.0, cc z.1), cc z.1),
      ),
    )

-- On `n` readable bytes on either side the comparison reads no further and answers 0 when the bytes
-- are the same, and 1 when they are not.
pub safe_memcmp_equality :
    (s1 s2 : Bytes) (n : ℕ)
    → n ≤ length s1
    → n ≤ length s2
    → IsBytes s1
    → IsBytes s2
    → ((avb_safe_memcmp s1 s2 n ≡ ok 0) × (take n s1 ≡ take n s2))
      ⊎ ((avb_safe_memcmp s1 s2 n ≡ ok 1) × (take n s1 ≢ take n s2))
unfolding avb_safe_memcmp
safe_memcmp_equality s1 s2 zero h k b c = inl (refl, refl)
safe_memcmp_equality s1 s2 (suc n) h k b c =
    let (r, e, iff) = memcmp_loop_lem (suc n) s1 s2 0 h k b c in
    elim (Bool-cases (r == 0)) [
      | inl z ↦ let zero_r : r ≡ 0 = ground arith in inl (ground arith, (iff.0 zero_r).1)
      | inr z ↦ inr (ground arith, λ t. absurd (ground (arith, iff.1 (refl, t))))
    ]

memcmp_loop-agrees :
    (n : ℕ) (s1 s2 : Bytes) (start r : ℕ)
    → IsBytes s1
    → IsBytes s2
    → memcmp_loop n s1 s2 start ≡ ok r
    → (n ≤ length s1) × (n ≤ length s2)
unfolding memcmp_loop
memcmp_loop-agrees zero s1 s2 start r b c e = (omega arith, omega arith)
memcmp_loop-agrees (suc n) [] s2 start r b c e = cc e
memcmp_loop-agrees (suc n) (x ∷ s1) [] start r b c e = cc e
memcmp_loop-agrees (suc n) (x ∷ s1) (y ∷ s2) start r b c e =
    let (p, q) = memcmp_loop-agrees n s1 s2 (bit_or start (bit_xor x y)) r b.1 c.1 e in
    (omega arith, omega arith)

-- An answer 0 means that the first `n` bytes are the same, however long the memories are.
pub memcmp_agrees :
    (s1 s2 : Bytes) (n r : ℕ)
    → IsBytes s1
    → IsBytes s2
    → avb_safe_memcmp s1 s2 n ≡ ok r
    → r ≡ 0
    → take n s1 ≡ take n s2
unfolding avb_safe_memcmp
memcmp_agrees s1 s2 zero r b c e z = refl
memcmp_agrees s1 s2 (suc n) r b c e z =
    let nonzero : (suc n == 0) ≡ false = ground arith in
    let (x, e1, e2) = bind-eq-ok (memcmp_loop (suc n) s1 s2 0) _ (rw nonzero at e) in
    let (p, q) = memcmp_loop-agrees (suc n) s1 s2 0 x b c e1 in
    elim (safe_memcmp_equality s1 s2 (suc n) p q b c) [
      | inl (_, same) ↦ same
      | inr (one, _) ↦ absurd (cc (sym e ∙ one, z))
    ]

-- `avb_memcmp(a, b, n) == 0` on `n` bytes of either side.
unfoldable pub same_bytes : Bytes → Bytes → Bool
same_bytes [] [] = true
same_bytes [] (y ∷ ys) = false
same_bytes (x ∷ xs) [] = false
same_bytes (x ∷ xs) (y ∷ ys) = x == y && same_bytes xs ys
