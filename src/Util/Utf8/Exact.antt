-- ===== src/Util/Utf8/Exact.antt =====
-- `avb_validate_utf8` accepts exactly the texts of `IsUtf8`.
use android_boot_image_edito.Common.{
  Option-cases, subst, ℕ, zero, suc, ◌-◌, ◌≤◌, ◌<◌, ◌≡◌, refl, ◌∙◌, ◌⊎◌, ◌↔◌, arith, Bool, true,
  false, ◌&&◌, leb, ltb, ◌==◌, if◌then◌else◌, Option, none, some, bit_and, Bytes, IsByte, IsBytes,
  [], ◌∷◌, inl, inr,
}
use android_boot_image_edito.Common.Bits.{holds_below, holds_below_at}
use android_boot_image_edito.Util.Utf8.{
  utf8_round, utf8_loop, avb_validate_utf8, IsContinuation, IsUtf8, nil, one, two, three, four,
}

-- The masks as ranges.
abbrev same : Bool → Bool → Bool
same true b = b
same false true = false
same false false = true

in_range : (mask value lo hi : ℕ) → ℕ → Bool
in_range mask value lo hi c = same (bit_and c mask == value) (leb lo c && ltb c hi)

mask_continuation : holds_below 256 (in_range 0xc0 0x80 0x80 0xc0) ≡ true
unfolding holds_below in_range
mask_continuation = refl

mask_two : holds_below 256 (in_range 0xe0 0xc0 0xc0 0xe0) ≡ true
unfolding holds_below in_range
mask_two = refl

mask_three : holds_below 256 (in_range 0xf0 0xe0 0xe0 0xf0) ≡ true
unfolding holds_below in_range
mask_three = refl

mask_four : holds_below 256 (in_range 0xf8 0xf0 0xf0 0xf8) ≡ true
unfolding holds_below in_range
mask_four = refl

-- The round in terms of ranges.
round_ranges : ℕ → ℕ → Option ℕ
round_ranges c num_cc =
    if ltb 0 num_cc
    then (if leb 0x80 c && ltb c 0xc0 then some (num_cc - 1) else none)
    else if ltb c 0x80
    then some 0
    else if leb 0xc0 c && ltb c 0xe0
    then some 1
    else if leb 0xe0 c && ltb c 0xf0
    then some 2
    else if leb 0xf0 c && ltb c 0xf8
    then some 3
    else none

utf8_round-ranges : (c num_cc : ℕ) → IsByte c → utf8_round c num_cc ≡ round_ranges c num_cc
unfolding utf8_round round_ranges in_range
utf8_round-ranges c num_cc h = ground (
  arith,
  holds_below_at 256 _ c mask_continuation h,
  holds_below_at 256 _ c mask_two h,
  holds_below_at 256 _ c mask_three h,
  holds_below_at 256 _ c mask_four h,
)

-- What the first byte of a character says of the bytes behind it.
abbrev Leads : ℕ → ℕ → Type 0
Leads c next =
    ((next ≡ 0) × (c < 0x80))
    ⊎ (((next ≡ 1) × (0xc0 ≤ c) × (c < 0xe0))
        ⊎ (((next ≡ 2) × (0xe0 ≤ c) × (c < 0xf0)) ⊎ ((next ≡ 3) × (0xf0 ≤ c) × (c < 0xf8))))

round-Leads : (c next : ℕ) → IsByte c → utf8_round c 0 ≡ some next → Leads c next
unfolding round_ranges
round-Leads c next h e = ground (arith, utf8_round-ranges c 0 h)

round_continues :
    (c n next : ℕ) → IsByte c → utf8_round c (suc n) ≡ some next → (next ≡ n) × IsContinuation c
unfolding round_ranges
round_continues c n next h e = ground (arith, utf8_round-ranges c (suc n) h)

-- `n` continuation bytes, and then a text.
abbrev Pending : ℕ → Bytes → Type 0
Pending zero bs = IsUtf8 bs
Pending (suc n) [] = ⊥
Pending (suc n) (c ∷ bs) = IsContinuation c × Pending n bs

lead_two : (c : ℕ) (bs : Bytes) → 0xc0 ≤ c → c < 0xe0 → Pending 1 bs → IsUtf8 (c ∷ bs)
lead_two c [] p q h = absurd h
lead_two c (x ∷ bs) p q (hx, h) = two p q hx h

lead_three : (c : ℕ) (bs : Bytes) → 0xe0 ≤ c → c < 0xf0 → Pending 2 bs → IsUtf8 (c ∷ bs)
lead_three c [] p q h = absurd h
lead_three c (x ∷ []) p q (hx, h) = absurd h
lead_three c (x ∷ y ∷ bs) p q (hx, (hy, h)) = three p q hx hy h

lead_four : (c : ℕ) (bs : Bytes) → 0xf0 ≤ c → c < 0xf8 → Pending 3 bs → IsUtf8 (c ∷ bs)
lead_four c [] p q h = absurd h
lead_four c (x ∷ []) p q (hx, h) = absurd h
lead_four c (x ∷ y ∷ []) p q (hx, (hy, h)) = absurd h
lead_four c (x ∷ y ∷ z ∷ bs) p q (hx, (hy, (hz, h))) = four p q hx hy hz h

lead_any : (c : ℕ) (bs : Bytes) (next : ℕ) → Leads c next → Pending next bs → IsUtf8 (c ∷ bs)
lead_any c bs next (inl (e, h)) k = one h (subst (λ n. Pending n bs) e k)
lead_any c bs next (inr (inl (e, p, q))) k = lead_two c bs p q (subst (λ n. Pending n bs) e k)
lead_any c bs next (inr (inr (inl (e, p, q)))) k =
    lead_three c bs p q (subst (λ n. Pending n bs) e k)
lead_any c bs next (inr (inr (inr (e, p, q)))) k =
    lead_four c bs p q (subst (λ n. Pending n bs) e k)

-- A step that goes on, with the state it goes on in.
loop_step :
    (c : ℕ) (bs : Bytes) (num_cc : ℕ)
    → utf8_loop (c ∷ bs) num_cc ≡ true
    → (next : ℕ) × (utf8_round c num_cc ≡ some next) × (utf8_loop bs next ≡ true)
unfolding utf8_loop
loop_step c bs num_cc e = elim (Option-cases (utf8_round c num_cc)) [
  | inl z ↦ cc (rw (z, utf8_loop) at e)
  | inr (next, z) ↦ (next, z, rw (z, utf8_loop) at e)
]

loop_sound : (bs : Bytes) (num_cc : ℕ) → IsBytes bs → utf8_loop bs num_cc ≡ true → Pending num_cc bs
loop_sound [] zero b e = nil
loop_sound [] (suc n) b e = unfold utf8_loop in ground arith
loop_sound (c ∷ bs) zero b e =
    let (next, r, h) = loop_step c bs 0 e in
    lead_any c bs next (round-Leads c next b.0 r) (loop_sound bs next b.1 h)
loop_sound (c ∷ bs) (suc n) b e =
    let (next, r, h) = loop_step c bs (suc n) e in
    let (m, k) = round_continues c n next b.0 r in
    (k, subst (λ i. Pending i bs) m (loop_sound bs next b.1 h))

-- One byte consumed by a round that is known.
loop_next :
    (c : ℕ) (bs : Bytes) (num_cc next : ℕ)
    → IsByte c
    → round_ranges c num_cc ≡ some next
    → utf8_loop (c ∷ bs) num_cc ≡ utf8_loop bs next
unfolding utf8_loop
loop_next c bs num_cc next h e = rw (utf8_round-ranges c num_cc h ∙ e, utf8_loop)

continuation_next :
    (c : ℕ) (bs : Bytes) (n : ℕ) → IsContinuation c → utf8_loop (c ∷ bs) (suc n) ≡ utf8_loop bs n
unfolding round_ranges
continuation_next c bs n h = loop_next c bs (suc n) n (omega arith) (ground arith)

loop_complete : {bs : Bytes} → IsUtf8 bs → utf8_loop bs 0 ≡ true
unfolding round_ranges
loop_complete nil = unfold utf8_loop in refl
loop_complete (one {c} {bs} h t) = loop_next c bs 0 0 (omega arith) (ground arith) ∙ loop_complete t
loop_complete (two {c} {x} {bs} p q hx t) =
    loop_next c (x ∷ bs) 0 1 (omega arith) (ground arith)
    ∙ continuation_next x bs 0 hx
    ∙ loop_complete t
loop_complete (three {c} {x} {y} {bs} p q hx hy t) =
    loop_next c (x ∷ y ∷ bs) 0 2 (omega arith) (ground arith)
    ∙ continuation_next x (y ∷ bs) 1 hx
    ∙ continuation_next y bs 0 hy
    ∙ loop_complete t
loop_complete (four {c} {x} {y} {z} {bs} p q hx hy hz t) =
    loop_next c (x ∷ y ∷ z ∷ bs) 0 3 (omega arith) (ground arith)
    ∙ continuation_next x (y ∷ z ∷ bs) 2 hx
    ∙ continuation_next y (z ∷ bs) 1 hy
    ∙ continuation_next z bs 0 hz
    ∙ loop_complete t

-- On bytes the validator accepts exactly the sequences of characters of one to four bytes in which
-- the first byte's range gives the number of continuation bytes behind it.
pub validate-IsUtf8_exact : (bs : Bytes) → IsBytes bs → (avb_validate_utf8 bs ≡ true) ↔ IsUtf8 bs
unfolding avb_validate_utf8
validate-IsUtf8_exact bs b = (loop_sound bs 0 b, loop_complete)
