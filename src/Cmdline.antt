-- ===== src/Cmdline.antt =====
-- aosp/libavb/src/avb/c/avb_cmdline.c: the kernel command line. The command line of `slot_data` is
-- the state that the `cmdline_append_*` functions change, `none` for `NULL`.
pub mod Words
pub mod Digits
pub mod Options
pub mod Subst
use android_boot_image_edito.Common.{
  ℕ, zero, suc, ◌+◌, ◌-◌, ◌*◌, ◌/◌, ◌%◌, ◌^◌, Bool, true, false, not, ◌&&◌, ◌||◌, leb, ltb, ◌==◌,
  if◌then◌else◌, Option, none, some, bit_and, List, Bytes, [], ◌∷◌, ◌++◌, length, take, drop,
  get_or,
}
use android_boot_image_edito.Heap.{Heap, malloc, Alloc}
use android_boot_image_edito.Util.Strings.{avb_strlen}
use android_boot_image_edito.Util.Text.{avb_bin2hex}

-- The loop of `uint64_to_base10`, the last digit first; its bound is `AVB_MAX_DIGITS_UINT64 - 1`.
rev_digits : ℕ → ℕ → Bytes
rev_digits zero value = []
rev_digits (suc left) value =
    let rest = rev_digits left (value / 10) in
    (value % 10 + 48) ∷ (if value / 10 == 0 then [] else rest)

abbrev pub reverse : Bytes → Bytes
reverse [] = []
reverse (x ∷ xs) = reverse xs ++ (x ∷ [])

unfoldable pub uint64_to_base10 : ℕ → Bytes
unfolding rev_digits
uint64_to_base10 value = reverse (rev_digits 31 value)

-- `AvbSlotVerifyData.cmdline` and the heap.
pub record SlotCmdline : Type 0 where
  pub cmdline : Option Bytes
  pub heap : Heap

-- What stands before the option: the old command line and a space, if it is not empty.
abbrev pub before_option : Option Bytes → Bytes
before_option none = []
before_option (some []) = []
before_option (some (c ∷ cmdline)) = (c ∷ cmdline) ++ (32 ∷ [])

-- The answer 1 is `true`.
unfoldable pub cmdline_append_option : SlotCmdline → Bytes → Bytes → Bool × SlotCmdline
cmdline_append_option slot_data key value =
    let (got, heap') = malloc slot_data.heap in
    if got
    then (
      true,
      record {
        cmdline = some (before_option slot_data.cmdline ++ (key ++ (61 ∷ value)));
        heap = heap';
      },
    )
    else (false, record { cmdline = slot_data.cmdline; heap = heap' })

unfoldable pub cmdline_append_version : SlotCmdline → Bytes → ℕ → ℕ → Bool × SlotCmdline
cmdline_append_version slot_data key major_version minor_version =
    cmdline_append_option slot_data key
      (uint64_to_base10 major_version ++ (46 ∷ uint64_to_base10 minor_version))

unfoldable pub cmdline_append_uint64_base10 : SlotCmdline → Bytes → ℕ → Bool × SlotCmdline
cmdline_append_uint64_base10 slot_data key value =
    cmdline_append_option slot_data key (uint64_to_base10 value)

unfoldable pub cmdline_append_hex : SlotCmdline → Bytes → Bytes → Bool × SlotCmdline
cmdline_append_hex slot_data key data' =
    let (hex_data, heap') = avb_bin2hex data' (slot_data.heap) in
    let slot_data' : SlotCmdline = record { cmdline = slot_data.cmdline; heap = heap' } in
    elim hex_data [
      | none ↦ (false, slot_data')
      | some hex ↦ cmdline_append_option slot_data' key hex
    ]
