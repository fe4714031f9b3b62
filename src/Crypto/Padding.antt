-- ===== src/Crypto/Padding.antt =====
-- The sizes in the table of algorithms.
use android_boot_image_edito.Common.{
  zero, suc, ◌*◌, ◌-◌, ◌^◌, ◌%◌, ltb, if◌then◌else◌, ℕ, ◌+◌, ◌≤◌, ◌≡◌, arith, some, Bytes, ◌∷◌,
  length, length-append, length-replicate, replicate,
}
use android_boot_image_edito.Crypto.{
  asn1_sha256, asn1_sha512, AvbAlgorithmData, padding_bytes, padding_rsa2048_sha256,
  padding_rsa4096_sha256, padding_rsa8192_sha256, padding_rsa2048_sha512, padding_rsa4096_sha512,
  padding_rsa8192_sha512, avb_get_algorithm_data,
}

length-padding_bytes : (n : ℕ) (a : Bytes) → length (padding_bytes n a) ≡ n + length a + 3
unfolding padding_bytes
length-padding_bytes n a =
    omega (arith, length-append (replicate n 0xff) (0x00 ∷ a), length-replicate {A = ℕ} n 0xff)

-- The padding has the stated length, and padding and digest together fill `key_bytes` bytes.
abbrev pub FitsKey : ℕ → ℕ → AvbAlgorithmData → Type 0
FitsKey key_bytes hash_bytes d =
    (length d.padding ≡ d.padding_len)
    × (d.padding_len + d.hash_len ≡ key_bytes)
    × (d.hash_len ≡ hash_bytes)

-- The key of algorithm 1, 2, 3 and of 4, 5, 6 has 2048, 4096 and 8192 bits.
abbrev pub key_bytes : ℕ → ℕ
key_bytes algorithm = 256 * 2 ^ ((algorithm - 1) % 3)

abbrev pub digest_bytes : ℕ → ℕ
digest_bytes algorithm = if ltb algorithm 4 then 32 else 64

length-padding_rsa2048_sha256 : length padding_rsa2048_sha256 ≡ 224
unfolding padding_rsa2048_sha256
length-padding_rsa2048_sha256 = omega (arith, length-padding_bytes 202 asn1_sha256)

length-padding_rsa4096_sha256 : length padding_rsa4096_sha256 ≡ 480
unfolding padding_rsa4096_sha256
length-padding_rsa4096_sha256 = omega (arith, length-padding_bytes 458 asn1_sha256)

length-padding_rsa8192_sha256 : length padding_rsa8192_sha256 ≡ 992
unfolding padding_rsa8192_sha256
length-padding_rsa8192_sha256 = omega (arith, length-padding_bytes 970 asn1_sha256)

length-padding_rsa2048_sha512 : length padding_rsa2048_sha512 ≡ 192
unfolding padding_rsa2048_sha512
length-padding_rsa2048_sha512 = omega (arith, length-padding_bytes 170 asn1_sha512)

length-padding_rsa4096_sha512 : length padding_rsa4096_sha512 ≡ 448
unfolding padding_rsa4096_sha512
length-padding_rsa4096_sha512 = omega (arith, length-padding_bytes 426 asn1_sha512)

length-padding_rsa8192_sha512 : length padding_rsa8192_sha512 ≡ 960
unfolding padding_rsa8192_sha512
length-padding_rsa8192_sha512 = omega (arith, length-padding_bytes 938 asn1_sha512)

-- For every algorithm the table has an entry, but `none` and the numbers from 7 on, the padding is
-- as long as stated, and padding and digest together fill a key of 2048, 4096 or 8192 bits.
pub algorithm_fills_key :
    (algorithm : ℕ) (d : AvbAlgorithmData)
    → 1 ≤ algorithm
    → avb_get_algorithm_data algorithm ≡ some d
    → FitsKey (key_bytes algorithm) (digest_bytes algorithm) d
unfolding avb_get_algorithm_data
algorithm_fills_key zero d h e = absurd (omega arith)
algorithm_fills_key (suc zero) d h e = ground (arith, length-padding_rsa2048_sha256)
algorithm_fills_key (suc (suc zero)) d h e = ground (arith, length-padding_rsa4096_sha256)
algorithm_fills_key (suc (suc (suc zero))) d h e = ground (arith, length-padding_rsa8192_sha256)
algorithm_fills_key (suc (suc (suc (suc zero)))) d h e =
    ground (arith, length-padding_rsa2048_sha512)
algorithm_fills_key (suc (suc (suc (suc (suc zero))))) d h e =
    ground (arith, length-padding_rsa4096_sha512)
algorithm_fills_key (suc (suc (suc (suc (suc (suc zero)))))) d h e =
    ground (arith, length-padding_rsa8192_sha512)
algorithm_fills_key (suc (suc (suc (suc (suc (suc (suc n))))))) d h e = ground arith
