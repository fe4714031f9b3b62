-- ===== src/Util/Endian/BigEndian.antt =====
-- Big-endian fields of a memory as arithmetic, against the loads and the byte swaps.
use android_boot_image_edito.Common.{
  ℕ, ◌+◌, ◌*◌, ◌^◌, ◌<◌, ◌≡◌, ◌∙◌, arith, Bytes, IsByte, IsBytes, get_or, get_or-IsByte,
}
use android_boot_image_edito.Util.Endian.{word32, avb_be32toh, load32, load64, be32, be64}
use android_boot_image_edito.Util.Endian.Laws.{be32toh_value, be64toh_halves}

-- The number in the 4 or 8 bytes at an offset, of which the first counts most.
abbrev pub number32 : Bytes → ℕ → ℕ
number32 memory o =
    get_or memory o 0 * 2 ^ 24
    + get_or memory (o + 1) 0 * 2 ^ 16
    + get_or memory (o + 2) 0 * 2 ^ 8
    + get_or memory (o + 3) 0

abbrev pub number64 : Bytes → ℕ → ℕ
number64 memory o =
    number32 memory o * 2 ^ 32
    + (get_or memory (o + 4) 0 * 2 ^ 24
        + get_or memory (o + 5) 0 * 2 ^ 16
        + get_or memory (o + 6) 0 * 2 ^ 8
        + get_or memory (o + 7) 0)

swap32 :
    (a b c d : ℕ)
    → IsByte a
    → IsByte b
    → IsByte c
    → IsByte d
    → (avb_be32toh (word32 a b c d) ≡ a * 2 ^ 24 + b * 2 ^ 16 + c * 2 ^ 8 + d)
      × (word32 a b c d < 2 ^ 32)
swap32 a b c d ha hb hc hd = omega (arith, be32toh_value (word32 a b c d))

pub be32-number32 : (bs : Bytes) (o : ℕ) → IsBytes bs → be32 bs o ≡ number32 bs o
unfolding be32 load32
be32-number32 bs o ib =
    (swap32 (get_or bs o 0) (get_or bs (o + 1) 0) (get_or bs (o + 2) 0) (get_or bs (o + 3) 0)
      (get_or-IsByte bs o ib) (get_or-IsByte bs (o + 1) ib) (get_or-IsByte bs (o + 2) ib)
      (get_or-IsByte bs (o + 3) ib)).0

pub be64-number64 : (bs : Bytes) (o : ℕ) → IsBytes bs → be64 bs o ≡ number64 bs o
unfolding be64 load64
be64-number64 bs o ib =
    let (low, word) =
      swap32 (get_or bs o 0) (get_or bs (o + 1) 0) (get_or bs (o + 2) 0) (get_or bs (o + 3) 0)
        (get_or-IsByte bs o ib) (get_or-IsByte bs (o + 1) ib) (get_or-IsByte bs (o + 2) ib)
        (get_or-IsByte bs (o + 3) ib) in
    let (high, _) =
      swap32 (get_or bs (o + 4) 0) (get_or bs (o + 5) 0) (get_or bs (o + 6) 0) (get_or bs (o + 7) 0)
        (get_or-IsByte bs (o + 4) ib) (get_or-IsByte bs (o + 5) ib) (get_or-IsByte bs (o + 6) ib)
        (get_or-IsByte bs (o + 7) ib) in
    be64toh_halves
      (word32 (get_or bs o 0) (get_or bs (o + 1) 0) (get_or bs (o + 2) 0) (get_or bs (o + 3) 0))
      (word32 (get_or bs (o + 4) 0) (get_or bs (o + 5) 0) (get_or bs (o + 6) 0)
        (get_or bs (o + 7) 0))
      word
    ∙ rw (low, high) (omega arith)
