-- ===== src/Util/Utf8.antt =====
-- `avb_validate_utf8`.
pub mod Exact
use android_boot_image_edito.Common.{
  ℕ, zero, suc, ◌+◌, ◌-◌, ◌≤◌, ◌<◌, ◌≡◌, refl, sym, ◌∙◌, ap, ◌↔◌, arith, Bool, true, false, ◌&&◌,
  leb, ltb, ◌==◌, if◌then◌else◌, Option, none, some, bit_and, bit_or, Bytes, IsByte, IsBytes, [],
  ◌∷◌, Bool-cases, inl, inr,
}
use android_boot_image_edito.Common.Bits.{holds_below, holds_below_at}

-- One round of the loop: the next `num_cc`, or `goto fail`.
utf8_round : ℕ → ℕ → Option ℕ
utf8_round c num_cc =
    if ltb 0 num_cc
    then (if bit_and c (bit_or 0x80 0x40) == 0x80 then some (num_cc - 1) else none)
    else if ltb c 0x80
    then some 0
    else if bit_and c (bit_or 0x80 (bit_or 0x40 0x20)) == bit_or 0x80 0x40
    then some 1
    else if bit_and c (bit_or 0x80 (bit_or 0x40 (bit_or 0x20 0x10)))
        == bit_or 0x80 (bit_or 0x40 0x20)
    then some 2
    else if bit_and c (bit_or 0x80 (bit_or 0x40 (bit_or 0x20 (bit_or 0x10 0x08))))
        == bit_or 0x80 (bit_or 0x40 (bit_or 0x20 0x10))
    then some 3
    else none

-- The list holds the bytes from `data[n]` on.
utf8_loop : Bytes → ℕ → Bool
utf8_loop [] num_cc = num_cc == 0
utf8_loop (c ∷ rest) num_cc = elim (utf8_round c num_cc) [
  | none ↦ false
  | some next ↦ utf8_loop rest next
]

-- The argument is the `num_bytes` bytes at `data`.
unfoldable pub avb_validate_utf8 : Bytes → Bool
unfolding utf8_loop utf8_round
avb_validate_utf8 bs = utf8_loop bs 0

abbrev pub IsContinuation : ℕ → Type 0
IsContinuation c = (0x80 ≤ c) × (c < 0xc0)

-- A text as a sequence of characters of one to four bytes, told apart by the range of the first.
pub data IsUtf8 : Bytes → Type 0 where
  nil : IsUtf8 []
  one : {c : ℕ} {bs : Bytes} → c < 0x80 → IsUtf8 bs → IsUtf8 (c ∷ bs)
  two :
      {c x : ℕ} {bs : Bytes}
      → 0xc0 ≤ c
      → c < 0xe0
      → IsContinuation x
      → IsUtf8 bs
      → IsUtf8 (c ∷ x ∷ bs)
  three :
      {c x y : ℕ} {bs : Bytes}
      → 0xe0 ≤ c
      → c < 0xf0
      → IsContinuation x
      → IsContinuation y
      → IsUtf8 bs
      → IsUtf8 (c ∷ x ∷ y ∷ bs)
  four :
      {c x y z : ℕ} {bs : Bytes}
      → 0xf0 ≤ c
      → c < 0xf8
      → IsContinuation x
      → IsContinuation y
      → IsContinuation z
      → IsUtf8 bs
      → IsUtf8 (c ∷ x ∷ y ∷ z ∷ bs)
