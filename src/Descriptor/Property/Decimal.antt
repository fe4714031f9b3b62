-- ===== src/Descriptor/Property/Decimal.antt =====
-- The numbers that `avb_property_lookup_uint64` reads from decimal digits.
use android_boot_image_edito.Common.{
  ℕ, ◌+◌, ◌-◌, ◌*◌, ◌%◌, ◌^◌, ◌≡◌, refl, ◌∙◌, ap, arith, false, ◌==◌, Option, some, Bytes, [], ◌∷◌,
  ◌++◌, All, drop,
}
use android_boot_image_edito.Memory.{ok, read, read-ok}
use android_boot_image_edito.Util.Compare.{same_bytes}
use android_boot_image_edito.Cmdline.Digits.{decimal, IsDigit}
use android_boot_image_edito.Descriptor.Property.{
  digit_of, parse_digits, parse_value, avb_property_lookup, avb_property_lookup_uint64, found,
  value_of,
}

digit_of-decimal : (c : ℕ) → IsDigit c → digit_of 10 c ≡ some (c - 48)
unfolding digit_of
digit_of-decimal c h = ground arith

next_value : (v p d : ℕ) → p ≡ v % 2 ^ 64 → (p * 10 % 2 ^ 64 + d) % 2 ^ 64 ≡ (v * 10 + d) % 2 ^ 64
next_value v p d e = omega arith

parse_digits-decimal :
    (digits rest : Bytes) (v p : ℕ)
    → All IsDigit digits
    → p ≡ v % 2 ^ 64
    → parse_digits 10 (digits ++ (0 ∷ rest)) p ≡ ok (some (decimal v digits % 2 ^ 64))
unfolding parse_digits
parse_digits-decimal [] rest v p h e = ap (λ n. ok (some n)) e
parse_digits-decimal (c ∷ digits) rest v p (d, h) e =
    let nonzero : (c == 0) ≡ false = ground arith in
    rw (parse_digits, nonzero, digit_of-decimal c d)
      (parse_digits-decimal digits rest (v * 10 + (c - 48)) _ h (next_value v p (c - 48) e))

unprefixed : (c d : ℕ) → (d == 120) ≡ false → same_bytes (c ∷ d ∷ []) (48 ∷ 120 ∷ []) ≡ false
unfolding same_bytes
unprefixed c d e = ground (arith, e)

two_bytes : (c d : ℕ) (memory : Bytes) → read (c ∷ d ∷ memory) 0 2 ≡ ok (c ∷ d ∷ [])
two_bytes c d memory = read-ok (c ∷ d ∷ memory) 0 2 (omega arith)

-- The first two bytes are not "0x".
no_prefix :
    (c d : ℕ) (memory : Bytes)
    → (d == 120) ≡ false
    → parse_value (c ∷ d ∷ memory) ≡ parse_digits 10 (c ∷ d ∷ memory) 0
unfolding parse_value
no_prefix c d memory e = rw (parse_value, two_bytes c d memory, unprefixed c d e) refl

-- A value of one decimal digit or more that ends with a NUL is read as the number that the digits
-- are, modulo 2^64, whatever stands behind the NUL.
pub parse_value-decimal :
    (c : ℕ) (digits rest : Bytes)
    → All IsDigit (c ∷ digits)
    → parse_value (c ∷ digits ++ (0 ∷ rest)) ≡ ok (some (decimal 0 (c ∷ digits) % 2 ^ 64))
parse_value-decimal c [] rest h =
    no_prefix c 0 rest refl ∙ parse_digits-decimal (c ∷ []) rest 0 0 h refl
parse_value-decimal c (d ∷ digits) rest h =
    no_prefix c d (digits ++ (0 ∷ rest)) (ground arith)
    ∙ parse_digits-decimal (c ∷ d ∷ digits) rest 0 0 h refl

-- When `avb_property_lookup` hands a pointer out behind which stand decimal digits, one at least,
-- and then a NUL, `avb_property_lookup_uint64` answers the number that the digits are, modulo 2^64.
pub lookup_uint64_decimal :
    (base : ℕ) (image : Bytes) (image_size : ℕ) (key : Bytes) (key_size value : ℕ) (size : Option ℕ)
    (c : ℕ) (digits rest : Bytes)
    → avb_property_lookup base image image_size key key_size ≡ found (some (some value, size))
    → drop value image ≡ c ∷ digits ++ (0 ∷ rest)
    → All IsDigit (c ∷ digits)
    → avb_property_lookup_uint64 base image image_size key key_size
      ≡ found (some (decimal 0 (c ∷ digits) % 2 ^ 64))
unfolding avb_property_lookup_uint64
lookup_uint64_decimal base image image_size key key_size value size c digits rest e there h =
    rw (avb_property_lookup_uint64, e, there) (ap value_of (parse_value-decimal c digits rest h))
