-- ===== src/Util/Endian/Fields.antt =====
-- Big-endian fields as bytes, for the layouts of the packed structs.
use android_boot_image_edito.Common.{ℕ, ◌+◌, ◌*◌, ◌/◌, ◌%◌, ◌^◌, ◌<◌, ◌≡◌, arith, Bytes, ◌∷◌}
use android_boot_image_edito.Util.Endian.{word32, avb_be32toh, avb_be64toh}
use android_boot_image_edito.Util.Endian.Laws.{be32toh_value, be64toh_halves}

-- A 32-bit or 64-bit number in network byte order, in front of what follows it.
abbrev pub put32 : ℕ → Bytes → Bytes
put32 x rest = (x / 2 ^ 24 % 256) ∷ (x / 2 ^ 16 % 256) ∷ (x / 2 ^ 8 % 256) ∷ (x % 256) ∷ rest

abbrev pub put64 : ℕ → Bytes → Bytes
put64 x rest = put32 (x / 2 ^ 32) (put32 (x % 2 ^ 32) rest)

-- What `be32` and `be64` compute on such bytes.
abbrev pub stored32 : ℕ → ℕ
stored32 x = word32 (x / 2 ^ 24 % 256) (x / 2 ^ 16 % 256) (x / 2 ^ 8 % 256) (x % 256)

pub field32 : (x : ℕ) → x < 2 ^ 32 → avb_be32toh (stored32 x) ≡ x
field32 x h = omega (arith, be32toh_value (stored32 x))

pub field64 :
    (x : ℕ) → x < 2 ^ 64 → avb_be64toh (stored32 (x / 2 ^ 32) + stored32 (x % 2 ^ 32) * 2 ^ 32) ≡ x
field64 x h = omega (
  arith,
  be64toh_halves (stored32 (x / 2 ^ 32)) (stored32 (x % 2 ^ 32)) (omega arith),
  field32 (x / 2 ^ 32) (omega arith),
  field32 (x % 2 ^ 32) (omega arith),
)
