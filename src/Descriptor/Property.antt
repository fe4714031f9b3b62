-- ===== src/Descriptor/Property.antt =====
-- `avb_property_lookup` and `avb_property_lookup_uint64` of c/avb_property_descriptor.c. A pointer
-- into the image is an offset, and one that is not set is `none`.
pub mod Decimal
use android_boot_image_edito.Common.{
  ℕ, ◌+◌, ◌-◌, ◌*◌, ◌%◌, ◌^◌, Bool, true, false, not, ◌&&◌, ◌||◌, leb, ltb, ◌==◌, if◌then◌else◌,
  Option, none, some, Bytes, List, [], ◌∷◌, length, drop, get_or,
}
use android_boot_image_edito.Memory.{Run, ok, fault, read, ◌>>=◌}
use android_boot_image_edito.Util.Endian.{load64}
use android_boot_image_edito.Util.Compare.{same_bytes}
use android_boot_image_edito.Descriptor.{
  AvbPropertyDescriptor, avb_property_descriptor_validate_and_byteswap,
}
use android_boot_image_edito.Descriptor.Foreach.{
  Iteration, returned, outside, aborted, out_of_fuel, avb_descriptor_foreach,
}

-- `digit`, or "Invalid digit."
unfoldable pub digit_of : ℕ → ℕ → Option ℕ
digit_of base c =
    if leb 48 c && leb c 57
    then some (c - 48)
    else if base == 16 && leb 97 c && leb c 102
    then some (c - 97 + 10)
    else if base == 16 && leb 65 c && leb c 70
    then some (c - 65 + 10)
    else none

-- The loop over the digits: `*out_value`, or the answer `false`.
unfoldable pub parse_digits : ℕ → Bytes → ℕ → Run (Option ℕ)
parse_digits base [] parsed_val = fault
parse_digits base (c ∷ value) parsed_val = elim (c == 0) [
  | true ↦ ok (some parsed_val)
  | false ↦ elim (digit_of base c) [
    | none ↦ ok none
    | some digit ↦ parse_digits base value ((parsed_val * base % 2 ^ 64 + digit) % 2 ^ 64)
  ]
]

-- From `base = 10` on; `value` is the memory behind the pointer.
unfoldable pub parse_value : Bytes → Run (Option ℕ)
parse_value value = do
  prefix ← read value 0 2
  if same_bytes prefix (48 ∷ 120 ∷ [])
      then parse_digits 16 (drop 2 value) 0
      else parse_digits 10 value 0

-- `ret_value` and `ret_value_size`, which have no value at first.
pub record PropertyIteratorData : Type 0 where
  pub key : Bytes
  pub key_size : ℕ
  pub ret_value : Option ℕ
  pub ret_value_size : Option ℕ

-- The comparison of two keys of the same size.
unfoldable pub compare_key :
    Bytes → ℕ → AvbPropertyDescriptor → PropertyIteratorData → Run (PropertyIteratorData × Bool)
compare_key image header prop_desc data' = do
  own_key ← read image (header + 32) data'.key_size
  key ← read data'.key 0 data'.key_size
  ok (
      if same_bytes own_key key
      then (
        record data' {
          ret_value = some (header + 32 + prop_desc.key_num_bytes + 1);
          ret_value_size = some prop_desc.value_num_bytes;
        },
        false,
      )
      else (data', true))

unfoldable pub property_lookup_desc_foreach :
    Bytes → ℕ → PropertyIteratorData → Run (PropertyIteratorData × Bool)
property_lookup_desc_foreach image header data' = do
  tag ← read image header 8
  if not (load64 tag 0 == 0) then ok (data', true) else do
    validated ← avb_property_descriptor_validate_and_byteswap (drop header image)
    elim validated [
      | none ↦ ok (data', true)
      | some prop_desc ↦ do
        nul ← read image (header + 32 + prop_desc.key_num_bytes) 1
        if not (get_or nul 0 0 == 0) || not (data'.key_size == prop_desc.key_num_bytes)
            then ok (data', true)
            else compare_key image header prop_desc data'
    ]

-- `avb_strlen` of a memory that has a NUL, or a read behind its end.
abbrev pub strlen : Bytes → Run ℕ
strlen [] = fault
strlen (c ∷ memory) = elim (c == 0) [
  | true ↦ ok 0
  | false ↦ elim (strlen memory) [ fault ↦ fault | ok n ↦ ok (n + 1) ]
]

-- The callback for the iteration; a read outside the memory ends it.
unfoldable pub look_at : Bytes → ℕ → Run PropertyIteratorData → Run PropertyIteratorData × Bool
look_at image header fault = (fault, false)
look_at image header (ok data') = elim (property_lookup_desc_foreach image header data') [
  | fault ↦ (fault, false)
  | ok (data'', go_on) ↦ (ok data'', go_on)
]

-- What a lookup comes to: an answer, with `none` for `NULL` or `false`, a read outside the memory
-- or a use of a pointer without a value, or a failed assertion.
pub data Lookup (A : Type 0) : Type 0 where
  found : A → Lookup A
  lookup_outside : Lookup A
  lookup_aborted : Lookup A
  lookup_out_of_fuel : Lookup A

abbrev pub looked : Iteration (Run PropertyIteratorData) → Lookup (Option (Option ℕ × Option ℕ))
looked outside = lookup_outside
looked aborted = lookup_aborted
looked out_of_fuel = lookup_out_of_fuel
looked (returned fault _) = lookup_outside
looked (returned (ok data') true) = found none
looked (returned (ok data') false) = found (some (data'.ret_value, data'.ret_value_size))

-- `none` is `NULL`; otherwise `ret_value` and `ret_value_size` are handed out, set or not. `base`
-- is the address of `image_data`; without a size, `key` is a C string with its NUL.
unfoldable pub avb_property_lookup :
    ℕ → Bytes → ℕ → Bytes → ℕ → Lookup (Option (Option ℕ × Option ℕ))
avb_property_lookup base image image_size key key_size =
    elim (if key_size == 0 then strlen key else ok key_size) [
      | fault ↦ lookup_outside
      | ok size ↦ looked (
          avb_descriptor_foreach base image image_size (look_at image)
            (ok (record { key = key; key_size = size; ret_value = none; ret_value_size = none })))
    ]

-- `*out_value`, or the answer `false`.
abbrev pub value_of : Run (Option ℕ) → Lookup (Option ℕ)
value_of fault = lookup_outside
value_of (ok out_value) = found out_value

unfoldable pub avb_property_lookup_uint64 : ℕ → Bytes → ℕ → Bytes → ℕ → Lookup (Option ℕ)
avb_property_lookup_uint64 base image image_size key key_size =
    elim (avb_property_lookup base image image_size key key_size) [
      | lookup_outside ↦ lookup_outside
      | lookup_aborted ↦ lookup_aborted
      | lookup_out_of_fuel ↦ lookup_out_of_fuel
      | found none ↦ found none
      | found (some (none, size)) ↦ lookup_outside
      | found (some (some value, size)) ↦ value_of (parse_value (drop value image))
    ]
