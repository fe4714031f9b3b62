-- ===== src/Util/Endian/Laws.antt =====
-- The byte swaps as arithmetic, and that they invert one another.
use android_boot_image_edito.Common.{
  ℕ, ◌+◌, ◌*◌, ◌/◌, ◌%◌, ◌^◌, ◌<◌, ◌≡◌, ◌∙◌, arith, bit_or, Bytes, IsByte,
}
use android_boot_image_edito.Common.Bits.{bit_or_disjoint, bit_and_255}
use android_boot_image_edito.Util.Endian.{
  byte_of, word32, word64, avb_be32toh, avb_be64toh, avb_htobe32, avb_htobe64, load32, load64, be32,
  be64,
}

-- The first byte in memory counts most.
abbrev pub big32 : ℕ → ℕ → ℕ → ℕ → ℕ
big32 b0 b1 b2 b3 = word32 b3 b2 b1 b0

abbrev pub big64 : ℕ → ℕ → ℕ → ℕ → ℕ → ℕ → ℕ → ℕ → ℕ
big64 b0 b1 b2 b3 b4 b5 b6 b7 = word64 b7 b6 b5 b4 b3 b2 b1 b0

-- Adding the field below bit `k` to what stands above it.
or_below : (k q hi x : ℕ) → hi ≡ q * 2 ^ k → x < 2 ^ k → bit_or hi x ≡ hi + x
or_below k q hi x e h = rw e (bit_or_disjoint k q x h)

or_bytes :
    (a b c d : ℕ)
    → IsByte b
    → IsByte c
    → IsByte d
    → bit_or (bit_or (bit_or (a * 2 ^ 24) (b * 2 ^ 16)) (c * 2 ^ 8)) d
      ≡ a * 2 ^ 24 + b * 2 ^ 16 + c * 2 ^ 8 + d
or_bytes a b c d hb hc hd =
    rw (or_below 24 a (a * 2 ^ 24) (b * 2 ^ 16) (omega arith) (omega arith)) (
      rw
        (or_below 16 (a * 2 ^ 8 + b) (a * 2 ^ 24 + b * 2 ^ 16) (c * 2 ^ 8) (omega arith)
          (omega arith))
        (or_below 8 (a * 2 ^ 16 + b * 2 ^ 8 + c) (a * 2 ^ 24 + b * 2 ^ 16 + c * 2 ^ 8) d
          (omega arith) hd))

pub be32toh_value :
    (w : ℕ) → avb_be32toh w ≡ big32 (byte_of w 0) (byte_of w 1) (byte_of w 2) (byte_of w 3)
unfolding avb_be32toh
be32toh_value w =
    or_bytes (byte_of w 0) (byte_of w 1) (byte_of w 2) (byte_of w 3) (omega arith) (omega arith)
      (omega arith)
    ∙ omega arith

or_high :
    (a b c d : ℕ)
    → IsByte b
    → IsByte c
    → IsByte d
    → bit_or (bit_or (bit_or (a * 2 ^ 56) (b * 2 ^ 48)) (c * 2 ^ 40)) (d * 2 ^ 32)
      ≡ (a * 2 ^ 24 + b * 2 ^ 16 + c * 2 ^ 8 + d) * 2 ^ 32
or_high a b c d hb hc hd =
    rw (or_below 56 a (a * 2 ^ 56) (b * 2 ^ 48) (omega arith) (omega arith)) (
      rw
        (or_below 48 (a * 2 ^ 8 + b) (a * 2 ^ 56 + b * 2 ^ 48) (c * 2 ^ 40) (omega arith)
          (omega arith))
        (or_below 40 (a * 2 ^ 16 + b * 2 ^ 8 + c) (a * 2 ^ 56 + b * 2 ^ 48 + c * 2 ^ 40)
            (d * 2 ^ 32) (omega arith) (omega arith)
          ∙ omega arith))

or_low :
    (h a b c d : ℕ)
    → IsByte a
    → IsByte b
    → IsByte c
    → IsByte d
    → bit_or (bit_or (bit_or (bit_or (h * 2 ^ 32) (a * 2 ^ 24)) (b * 2 ^ 16)) (c * 2 ^ 8)) d
      ≡ h * 2 ^ 32 + (a * 2 ^ 24 + b * 2 ^ 16 + c * 2 ^ 8 + d)
or_low h a b c d ha hb hc hd =
    rw (or_below 32 h (h * 2 ^ 32) (a * 2 ^ 24) (omega arith) (omega arith)) (
      rw
        (or_below 24 (h * 2 ^ 8 + a) (h * 2 ^ 32 + a * 2 ^ 24) (b * 2 ^ 16) (omega arith)
          (omega arith))
        (rw
          (or_below 16 (h * 2 ^ 16 + a * 2 ^ 8 + b) (h * 2 ^ 32 + a * 2 ^ 24 + b * 2 ^ 16)
            (c * 2 ^ 8) (omega arith) (omega arith))
          (or_below 8 (h * 2 ^ 24 + a * 2 ^ 16 + b * 2 ^ 8 + c)
              (h * 2 ^ 32 + a * 2 ^ 24 + b * 2 ^ 16 + c * 2 ^ 8) d (omega arith) hd
            ∙ omega arith)))

pub be64toh_value :
    (w : ℕ)
    → avb_be64toh w
      ≡ big64
          (byte_of w 0)
          (byte_of w 1)
          (byte_of w 2)
          (byte_of w 3)
          (byte_of w 4)
          (byte_of w 5)
          (byte_of w 6)
          (byte_of w 7)
unfolding avb_be64toh
be64toh_value w =
    rw
      (or_high (byte_of w 0) (byte_of w 1) (byte_of w 2) (byte_of w 3) (omega arith) (omega arith)
        (omega arith))
      (or_low _ (byte_of w 4) (byte_of w 5) (byte_of w 6) (byte_of w 7) (omega arith) (omega arith)
          (omega arith) (omega arith)
        ∙ omega arith)

-- The byte swap to big-endian and back gives the 32-bit value again.
pub be32toh-htobe32 : (x : ℕ) → x < 2 ^ 32 → avb_be32toh (avb_htobe32 x) ≡ x
unfolding avb_htobe32
be32toh-htobe32 x h =
    rw (be32toh_value, bit_and_255 x, bit_and_255 (x / 2 ^ 8), bit_and_255 (x / 2 ^ 16))
      (rw (bit_and_255 (x / 2 ^ 24)) (omega arith))

word64_bytes :
    (lo hi : ℕ)
    → lo < 2 ^ 32
    → (byte_of (lo + hi * 2 ^ 32) 0 ≡ byte_of lo 0)
      × (byte_of (lo + hi * 2 ^ 32) 1 ≡ byte_of lo 1)
      × (byte_of (lo + hi * 2 ^ 32) 2 ≡ byte_of lo 2)
      × (byte_of (lo + hi * 2 ^ 32) 3 ≡ byte_of lo 3)
      × (byte_of (lo + hi * 2 ^ 32) 4 ≡ byte_of hi 0)
      × (byte_of (lo + hi * 2 ^ 32) 5 ≡ byte_of hi 1)
      × (byte_of (lo + hi * 2 ^ 32) 6 ≡ byte_of hi 2)
      × (byte_of (lo + hi * 2 ^ 32) 7 ≡ byte_of hi 3)
word64_bytes lo hi h = omega arith

-- A 64-bit word swaps as its two halves, which change places.
pub be64toh_halves :
    (lo hi : ℕ)
    → lo < 2 ^ 32
    → avb_be64toh (lo + hi * 2 ^ 32) ≡ avb_be32toh lo * 2 ^ 32 + avb_be32toh hi
be64toh_halves lo hi h = omega (
  arith,
  be64toh_value (lo + hi * 2 ^ 32),
  be32toh_value lo,
  be32toh_value hi,
  word64_bytes lo hi h,
)

htobe64_halves :
    (x : ℕ) → avb_htobe64 x ≡ avb_htobe32 (x / 2 ^ 32) + avb_htobe32 (x % 2 ^ 32) * 2 ^ 32
unfolding avb_htobe64 avb_htobe32
htobe64_halves x = omega (
  arith,
  bit_and_255 x,
  bit_and_255 (x / 2 ^ 8),
  bit_and_255 (x / 2 ^ 16),
  bit_and_255 (x / 2 ^ 24),
  bit_and_255 (x / 2 ^ 32),
  bit_and_255 (x / 2 ^ 40),
  bit_and_255 (x / 2 ^ 48),
  bit_and_255 (x / 2 ^ 56),
  bit_and_255 (x % 2 ^ 32),
  bit_and_255 (x % 2 ^ 32 / 2 ^ 8),
  bit_and_255 (x % 2 ^ 32 / 2 ^ 16),
  bit_and_255 (x % 2 ^ 32 / 2 ^ 24),
  bit_and_255 (x / 2 ^ 32 / 2 ^ 8),
  bit_and_255 (x / 2 ^ 32 / 2 ^ 16),
  bit_and_255 (x / 2 ^ 32 / 2 ^ 24),
)

htobe32-lt : (x : ℕ) → avb_htobe32 x < 2 ^ 32
unfolding avb_htobe32
htobe32-lt x = omega (
  arith,
  bit_and_255 x,
  bit_and_255 (x / 2 ^ 8),
  bit_and_255 (x / 2 ^ 16),
  bit_and_255 (x / 2 ^ 24),
)

-- The byte swap to big-endian and back gives the 64-bit value again.
pub be64toh-htobe64 : (x : ℕ) → x < 2 ^ 64 → avb_be64toh (avb_htobe64 x) ≡ x
be64toh-htobe64 x h = rw (htobe64_halves x) (
    rw (be64toh_halves _ (avb_htobe32 (x % 2 ^ 32)) (htobe32-lt (x / 2 ^ 32))) (
      omega (
        arith,
        be32toh-htobe32 (x / 2 ^ 32) (omega arith),
        be32toh-htobe32 (x % 2 ^ 32) (omega arith),
      )))

-- A field of a buffer fits its width.
pub be32-lt : (bs : Bytes) (o : ℕ) → be32 bs o < 2 ^ 32
unfolding be32
be32-lt bs o = omega (arith, be32toh_value (load32 bs o))

pub be64-lt : (bs : Bytes) (o : ℕ) → be64 bs o < 2 ^ 64
unfolding be64
be64-lt bs o = omega (arith, be64toh_value (load64 bs o))
