-- ===== src/Util/Text/Hex.antt =====
-- `avb_bin2hex` and a decoder.
use android_boot_image_edito.Common.{
  ◌==◌, ℕ, ◌+◌, ◌-◌, ◌*◌, ◌/◌, ◌<◌, ◌≡◌, refl, arith, Bool, true, leb, if◌then◌else◌, some, bit_and,
  IsBytes, Bytes, [], ◌∷◌, get_or, length, ==_iff,
}
use android_boot_image_edito.Common.Bits.{holds_below, holds_below_at}
use android_boot_image_edito.Heap.{Heap}
use android_boot_image_edito.Util.Text.{hex_digits, hex_loop, avb_bin2hex}

-- The value of a hexadecimal digit, from its range of characters.
abbrev digit_value : ℕ → ℕ
digit_value c = if leb 97 c then c - 87 else c - 48

-- Two digits a byte.
abbrev pub decode_hex : Bytes → Bytes
decode_hex [] = []
decode_hex (high ∷ []) = []
decode_hex (high ∷ low ∷ rest) = (digit_value high * 16 + digit_value low) ∷ decode_hex rest

abbrev digits_ok : ℕ → Bool
digits_ok b =
    digit_value (get_or hex_digits (b / 16) 0) * 16
      + digit_value (get_or hex_digits (bit_and b 0x0f) 0)
    == b

digits_table : holds_below 256 digits_ok ≡ true
unfolding holds_below
digits_table = refl

digits_value :
    (b : ℕ)
    → b < 256
    → digit_value (get_or hex_digits (b / 16) 0) * 16
        + digit_value (get_or hex_digits (bit_and b 0x0f) 0)
      ≡ b
digits_value b h = (==_iff _ b).0 (holds_below_at 256 digits_ok b digits_table h)

pub decode_hex-hex_loop : (data' : Bytes) → IsBytes data' → decode_hex (hex_loop data') ≡ data'
unfolding hex_loop
decode_hex-hex_loop [] h = refl
decode_hex-hex_loop (b ∷ data') (p, h) = λ i. digits_value b p i ∷ decode_hex-hex_loop data' h i

length-hex_loop : (data' : Bytes) → length (hex_loop data') ≡ 2 * length data'
unfolding hex_loop
length-hex_loop [] = omega arith
length-hex_loop (b ∷ data') = omega (arith, length-hex_loop data')

-- When `malloc` succeeds, `avb_bin2hex` returns a string of two digits a byte, from which the bytes
-- are read back.
pub bin2hex_roundtrip :
    (data' : Bytes) (heap : Heap)
    → IsBytes data'
    → (hex : Bytes) × (avb_bin2hex data' (true ∷ heap) ≡ (some hex, heap))
      × (length hex ≡ 2 * length data')
      × (decode_hex hex ≡ data')
unfolding avb_bin2hex
bin2hex_roundtrip data' heap h =
    (hex_loop data', refl, length-hex_loop data', decode_hex-hex_loop data' h)
