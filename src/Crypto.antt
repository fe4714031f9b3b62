-- ===== src/Crypto.antt =====
-- Algorithms: aosp/libavb/src/avb/headers/avb_crypto.h and the tables of c/avb_crypto.c. The hash
-- functions and the RSA check are taken from other projects (avb_sha256.c, avb_sha512.c, avb_rsa.c)
-- and enter as an argument.
pub mod Padding
use android_boot_image_edito.Common.{
  ℕ, ◌-◌, ◌≡◌, Bool, List, Bytes, IsBytes, length, [], ◌∷◌, ◌++◌, Option, none, some, ltb, ◌==◌,
  if◌then◌else◌, replicate,
}

-- The calls of the hash functions and of `avb_rsa_verify`. A digest is that of the context after
-- `init` and these calls of `update`; `final` returns 32 or 64 bytes.
pub record Primitives : Type 0 where
  pub sha256 : List Bytes → Bytes
  pub sha512 : List Bytes → Bytes
  -- key, signature, hash, padding
  pub avb_rsa_verify : Bytes → Bytes → Bytes → Bytes → Bool
  pub length-sha256 : (us : List Bytes) → length (sha256 us) ≡ 32
  pub length-sha512 : (us : List Bytes) → length (sha512 us) ≡ 64
  pub sha256-IsBytes : (us : List Bytes) → IsBytes (sha256 us)
  pub sha512-IsBytes : (us : List Bytes) → IsBytes (sha512 us)

pub record AvbAlgorithmData : Type 0 where
  pub padding : Bytes
  pub padding_len : ℕ
  pub hash_len : ℕ

-- 00 01 FF ... FF 00 and the DER prefix of the digest.
abbrev asn1_sha256 : Bytes
asn1_sha256 =
    0x30 ∷ 0x31 ∷ 0x30 ∷ 0x0d ∷ 0x06 ∷ 0x09 ∷ 0x60 ∷ 0x86 ∷ 0x48 ∷ 0x01 ∷ 0x65 ∷ 0x03 ∷ 0x04 ∷ 0x02
    ∷ 0x01 ∷ 0x05 ∷ 0x00 ∷ 0x04 ∷ 0x20 ∷ []

abbrev asn1_sha512 : Bytes
asn1_sha512 =
    0x30 ∷ 0x51 ∷ 0x30 ∷ 0x0d ∷ 0x06 ∷ 0x09 ∷ 0x60 ∷ 0x86 ∷ 0x48 ∷ 0x01 ∷ 0x65 ∷ 0x03 ∷ 0x04 ∷ 0x02
    ∷ 0x03 ∷ 0x05 ∷ 0x00 ∷ 0x04 ∷ 0x40 ∷ []

padding_bytes : ℕ → Bytes → Bytes
padding_bytes ones asn1 = 0x00 ∷ 0x01 ∷ (replicate ones 0xff ++ (0x00 ∷ asn1))

pub padding_rsa2048_sha256 : Bytes
padding_rsa2048_sha256 = padding_bytes 202 asn1_sha256

pub padding_rsa4096_sha256 : Bytes
padding_rsa4096_sha256 = padding_bytes 458 asn1_sha256

pub padding_rsa8192_sha256 : Bytes
padding_rsa8192_sha256 = padding_bytes 970 asn1_sha256

pub padding_rsa2048_sha512 : Bytes
padding_rsa2048_sha512 = padding_bytes 170 asn1_sha512

pub padding_rsa4096_sha512 : Bytes
padding_rsa4096_sha512 = padding_bytes 426 asn1_sha512

pub padding_rsa8192_sha512 : Bytes
padding_rsa8192_sha512 = padding_bytes 938 asn1_sha512

-- One entry of the table; `padding_len` is the size of the array.
entry : Bytes → ℕ → ℕ → AvbAlgorithmData
entry padding size hash_len = record { padding = padding; padding_len = size; hash_len = hash_len }

unfoldable pub avb_get_algorithm_data : ℕ → Option AvbAlgorithmData
unfolding entry
avb_get_algorithm_data algorithm =
    if algorithm == 0
    then some (entry [] 0 0)
    else if algorithm == 1
    then some (entry padding_rsa2048_sha256 (256 - 32) 32)
    else if algorithm == 2
    then some (entry padding_rsa4096_sha256 (512 - 32) 32)
    else if algorithm == 3
    then some (entry padding_rsa8192_sha256 (1024 - 32) 32)
    else if algorithm == 4
    then some (entry padding_rsa2048_sha512 (256 - 64) 64)
    else if algorithm == 5
    then some (entry padding_rsa4096_sha512 (512 - 64) 64)
    else if algorithm == 6
    then some (entry padding_rsa8192_sha512 (1024 - 64) 64)
    else none
