-- ===== src/Descriptor/Foreach.antt =====
-- `avb_descriptor_foreach` and `avb_descriptor_get_all` of c/avb_descriptor.c. `p`, `desc_start`
-- and `desc_end` are addresses, and their sums wrap at 2 ^ 64; `base` is the address of
-- `image_data`. A descriptor is given to the callback by its offset in the image. The assertions
-- are enabled, as the build defines `AVB_ENABLE_DEBUG`.
pub mod Steps
pub mod Walk
pub mod Region
pub mod Exact
pub mod Safe
pub mod GetAll
use android_boot_image_edito.Common.{
  ◌&&◌, replicate, ℕ, zero, suc, ◌+◌, ◌-◌, ◌*◌, ◌/◌, ◌%◌, ◌^◌, Bool, true, false, not, ◌||◌, ltb,
  leb, ◌==◌, if◌then◌else◌, Option, none, some, bit_and, Bytes, List, [], ◌∷◌, length, take, get_or,
}
use android_boot_image_edito.Memory.{Run, ok, fault, read}
use android_boot_image_edito.Heap.{Heap, malloc}
use android_boot_image_edito.Util.Endian.{be64}
use android_boot_image_edito.Util.Compare.{same_bytes}
use android_boot_image_edito.Util.Checked.{avb_safe_add_to, avb_safe_add}
use android_boot_image_edito.Vbmeta.Header.{avb_magic}

-- How an iteration ends: with the user data and the answer, with a read outside the image, or with
-- a failed assertion. `out_of_fuel` is no outcome of the program.
pub data Iteration (S : Type 0) : Type 0 where
  returned : S → Bool → Iteration S
  outside : Iteration S
  aborted : Iteration S
  out_of_fuel : Iteration S

-- The test of `avb_assert_aligned`; `AVB_ALIGNMENT_SIZE` is 8 on a 64-bit machine.
abbrev pub is_aligned : ℕ → Bool
is_aligned addr = bit_and addr (8 - 1) == 0

-- `dh->num_bytes_following` at the address `p`.
unfoldable pub bytes_following : ℕ → Bytes → ℕ → Run ℕ
bytes_following base image p = elim (read image (p - base + 8) 8) [
  | fault ↦ fault
  | ok field ↦ ok (be64 field 0)
]

-- The three checks of a descriptor at `p`: its total size, or `goto out`.
unfoldable pub total_size : ℕ → ℕ → ℕ → ℕ → Option ℕ
total_size desc_start desc_end p nb_following =
    let (nb_total, fits) = avb_safe_add 16 nb_following in
    let next = (nb_total + p) % 2 ^ 64 in
    if not fits
    then none
    else if not (bit_and nb_total 7 == 0)
    then none
    else if ltb next desc_start || ltb desc_end next
    then none
    else some nb_total

module _ {S : Type 0} (base : ℕ) (image : Bytes) (desc_start desc_end : ℕ)
    (foreach_func : ℕ → S → S × Bool) where
  -- The `for` loop from the address `p` on.
  unfoldable pub foreach_loop : ℕ → ℕ → S → Iteration S
  foreach_loop zero p user_data = out_of_fuel
  foreach_loop (suc fuel) p user_data = elim (ltb p desc_end) [
    | false ↦ returned user_data true
    | true ↦ elim (is_aligned p) [
      | false ↦ aborted
      | true ↦ elim (bytes_following base image p) [
        | fault ↦ outside
        | ok nb_following ↦ elim (total_size desc_start desc_end p nb_following) [
          | none ↦ returned user_data false
          | some nb_total ↦
              let (data', go_on) = foreach_func (p - base) user_data in
              elim go_on [
                | false ↦ returned data' false
                | true ↦
                    let (p', fits) = avb_safe_add_to p nb_total in
                    elim fits [ false ↦ returned data' false | true ↦ foreach_loop fuel p' data' ]
              ]
        ]
      ]
    ]
  ]

-- The region that the header names, as the addresses of its ends.
unfoldable pub region_start : ℕ → Bytes → ℕ
region_start base header = (base + 256 + be64 header 12 + be64 header 96) % 2 ^ 64

unfoldable pub region_end : ℕ → Bytes → ℕ
region_end base header = (region_start base header + be64 header 104) % 2 ^ 64

-- "Descriptors not inside passed-in data."
unfoldable pub region_outside : ℕ → ℕ → ℕ → ℕ → Bool
region_outside base image_end desc_start desc_end =
    ltb desc_start base
    || ltb image_end desc_start
    || ltb desc_end base
    || ltb image_end desc_end
    || ltb desc_end desc_start

-- The arguments are not `NULL`. `image_size + 1` rounds are enough, since each moves on by 16
-- bytes.
unfoldable pub avb_descriptor_foreach :
    {S : Type 0} → ℕ → Bytes → ℕ → (ℕ → S → S × Bool) → S → Iteration S
avb_descriptor_foreach base image image_size foreach_func user_data =
    if ltb image_size 256 then returned user_data false else elim (read image 0 256) [
      | fault ↦ outside
      | ok header ↦
          let desc_start = region_start base header in
          let desc_end = region_end base header in
          if not (same_bytes (take 4 image) avb_magic)
          then returned user_data false
          else if not (is_aligned base)
          then aborted
          else if region_outside base ((base + image_size) % 2 ^ 64) desc_start desc_end
          then returned user_data false
          else foreach_loop base image desc_start desc_end foreach_func (image_size + 1) desc_start
              user_data
    ]

-- The two callbacks of `avb_descriptor_get_all`.
unfoldable pub count_descriptors : ℕ → ℕ → ℕ × Bool
count_descriptors descriptor num_descriptors = (num_descriptors + 1, true)

pub record SetDescriptorData : Type 0 where
  pub descriptor_number : ℕ
  pub descriptors : List (Option ℕ)

-- A store at an index of an array; a store outside it is lost here.
abbrev pub store {ℓ} : {A : Type ℓ} → List A → ℕ → A → List A
store [] i v = []
store (x ∷ xs) zero v = v ∷ xs
store (x ∷ xs) (suc i) v = x ∷ store xs i v

unfoldable pub set_descriptors : ℕ → SetDescriptorData → SetDescriptorData × Bool
set_descriptors descriptor user_data = (
  record {
    descriptor_number = user_data.descriptor_number + 1;
    descriptors = store user_data.descriptors user_data.descriptor_number (some descriptor);
  },
  true,
)

-- The array with its number of descriptors, or `NULL`, and the other ways to end.
pub data AllDescriptors : Type 0 where
  all_got : Option (List (Option ℕ) × ℕ) → Heap → AllDescriptors
  all_outside : AllDescriptors
  all_aborted : AllDescriptors
  all_out_of_fuel : AllDescriptors

-- The second iteration and the assertion behind it.
unfoldable pub set_all : ℕ → Heap → Iteration SetDescriptorData → AllDescriptors
set_all num_descriptors heap outside = all_outside
set_all num_descriptors heap aborted = all_aborted
set_all num_descriptors heap out_of_fuel = all_out_of_fuel
set_all num_descriptors heap (returned data' _) =
    if data'.descriptor_number == num_descriptors
    then all_got (some (data'.descriptors, num_descriptors)) heap
    else all_aborted

-- The answers of the two iterations are not looked at.
unfoldable pub avb_descriptor_get_all : ℕ → Bytes → ℕ → Heap → AllDescriptors
avb_descriptor_get_all base image image_size heap =
    elim (avb_descriptor_foreach base image image_size count_descriptors 0) [
      | outside ↦ all_outside
      | aborted ↦ all_aborted
      | out_of_fuel ↦ all_out_of_fuel
      | returned num_descriptors _ ↦
          let (got, heap') = malloc heap in
          if not got
          then all_got none heap'
          else set_all num_descriptors heap' (
              avb_descriptor_foreach base image image_size set_descriptors (record {
                descriptor_number = 0;
                descriptors = replicate (num_descriptors + 1) none;
              }))
    ]
