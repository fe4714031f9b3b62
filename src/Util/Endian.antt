-- ===== src/Util/Endian.antt =====
-- Byte order: `avb_be32toh`, `avb_be64toh`, `avb_htobe32`, `avb_htobe64`, and how a packed field is
-- read from memory. The host is little-endian: byte `i` of a word is its digit `i` to the base 256.
pub mod Laws
pub mod Fields
pub mod BigEndian
use android_boot_image_edito.Common.{ℕ, ◌+◌, ◌*◌, ◌/◌, ◌%◌, ◌^◌, bit_and, bit_or, Bytes, get_or}

-- `((uint8_t*)&w)[i]`
abbrev pub byte_of : ℕ → ℕ → ℕ
byte_of w i = w / 256 ^ i % 256

-- The word that holds these bytes, in the order of their addresses.
abbrev pub word32 : ℕ → ℕ → ℕ → ℕ → ℕ
word32 b0 b1 b2 b3 = b0 + b1 * 2 ^ 8 + b2 * 2 ^ 16 + b3 * 2 ^ 24

abbrev pub word64 : ℕ → ℕ → ℕ → ℕ → ℕ → ℕ → ℕ → ℕ → ℕ
word64 b0 b1 b2 b3 b4 b5 b6 b7 = word32 b0 b1 b2 b3 + word32 b4 b5 b6 b7 * 2 ^ 32

unfoldable pub avb_be32toh : ℕ → ℕ
avb_be32toh w =
    let ret1 = byte_of w 0 * 2 ^ 24 in
    let ret2 = bit_or ret1 (byte_of w 1 * 2 ^ 16) in
    let ret3 = bit_or ret2 (byte_of w 2 * 2 ^ 8) in bit_or ret3 (byte_of w 3)

unfoldable pub avb_be64toh : ℕ → ℕ
avb_be64toh w =
    let ret1 = byte_of w 0 * 2 ^ 56 in
    let ret2 = bit_or ret1 (byte_of w 1 * 2 ^ 48) in
    let ret3 = bit_or ret2 (byte_of w 2 * 2 ^ 40) in
    let ret4 = bit_or ret3 (byte_of w 3 * 2 ^ 32) in
    let ret5 = bit_or ret4 (byte_of w 4 * 2 ^ 24) in
    let ret6 = bit_or ret5 (byte_of w 5 * 2 ^ 16) in
    let ret7 = bit_or ret6 (byte_of w 6 * 2 ^ 8) in bit_or ret7 (byte_of w 7)

pub avb_htobe32 : ℕ → ℕ
avb_htobe32 x =
    word32 (bit_and (x / 2 ^ 24) 0xff) (bit_and (x / 2 ^ 16) 0xff) (bit_and (x / 2 ^ 8) 0xff)
      (bit_and x 0xff)

pub avb_htobe64 : ℕ → ℕ
avb_htobe64 x =
    word64 (bit_and (x / 2 ^ 56) 0xff) (bit_and (x / 2 ^ 48) 0xff) (bit_and (x / 2 ^ 40) 0xff)
      (bit_and (x / 2 ^ 32) 0xff) (bit_and (x / 2 ^ 24) 0xff) (bit_and (x / 2 ^ 16) 0xff)
      (bit_and (x / 2 ^ 8) 0xff) (bit_and x 0xff)

-- A packed `uint32_t` or `uint64_t` field at an offset of a buffer.
unfoldable pub load32 : Bytes → ℕ → ℕ
load32 bs o =
    word32 (get_or bs o 0) (get_or bs (o + 1) 0) (get_or bs (o + 2) 0) (get_or bs (o + 3) 0)

unfoldable pub load64 : Bytes → ℕ → ℕ
load64 bs o =
    word64 (get_or bs o 0) (get_or bs (o + 1) 0) (get_or bs (o + 2) 0) (get_or bs (o + 3) 0)
      (get_or bs (o + 4) 0) (get_or bs (o + 5) 0) (get_or bs (o + 6) 0) (get_or bs (o + 7) 0)

-- A field after the byte swap.
unfoldable pub be32 : Bytes → ℕ → ℕ
unfolding load32
be32 bs o = avb_be32toh (load32 bs o)

unfoldable pub be64 : Bytes → ℕ → ℕ
unfolding load64
be64 bs o = avb_be64toh (load64 bs o)
