-- ===== src/Cmdline/Subst.antt =====
-- `avb_sub_cmdline` and the list of substitutions of c/avb_cmdline.c.
pub mod Digest
pub mod Laws
use android_boot_image_edito.Common.{
  ℕ, zero, suc, ◌+◌, Bool, true, false, not, ◌||◌, leb, ltb, if◌then◌else◌, Option, none, some,
  List, Bytes, [], ◌∷◌, ◌++◌, length,
}
use android_boot_image_edito.Heap.{Heap, malloc, Alloc}
use android_boot_image_edito.Ops.{
  AvbIoResult, io_ok, AvbSlotVerifyResult, result_ok, result_error_oom,
  result_error_invalid_metadata,
}
use android_boot_image_edito.Util.Strings.{avb_strlen, avb_strdup, avb_strstr, avb_replace}
use android_boot_image_edito.Util.Text.{avb_str_concat, avb_strdupv, avb_uppercase, avb_bin2hex}
use android_boot_image_edito.Cmdline.Words.{
  token_system, token_boot, token_vbmeta, part_system, part_boot, part_vbmeta, digest_prefix,
  digest_suffix,
}

-- `AvbCmdlineSubstList`: the first `size` tokens, each with its value.
abbrev pub AvbCmdlineSubstList : Type 0
AvbCmdlineSubstList = List (Bytes × Bytes)

-- The state of the loop: `ret`, the heap, and whether it has gone to `fail`.
pub data Substituted : Type 0 where
  going : Option Bytes → Heap → Substituted
  failed : Heap → Substituted

abbrev pub is_present : Option ℕ → Bool
is_present none = false
is_present (some n) = true

-- `ret = avb_replace(…); if (ret == NULL) goto fail;`
abbrev pub replaced : Option Bytes × Heap → Substituted
replaced (none, heap) = failed heap
replaced (some ret, heap) = going (some ret) heap

abbrev pub or_else : Option Bytes → Bytes → Bytes
or_else none cmdline = cmdline
or_else (some ret) cmdline = ret

-- A round of the first loop. `get_guid` is `ops->get_unique_guid_for_partition`, with the string it
-- puts in the buffer, for the name that `avb_str_concat` writes to a buffer of 32 bytes.
unfoldable pub guid_round :
    (Bytes → AvbIoResult × Bytes)
    → Bytes
    → Bytes
    → Bytes
    → Bytes
    → Option Bytes
    → Heap
    → Substituted
guid_round get_guid cmdline ab_suffix part_name_str replace_str ret heap =
    if not (is_present (avb_strstr cmdline replace_str))
    then going ret heap
    else elim (avb_str_concat 32 part_name_str ab_suffix) [
      | none ↦ failed heap
      | some part_name ↦
          let (io_ret, guid_buf) = get_guid (part_name_str ++ ab_suffix) in
          elim io_ret [
            | io_ok ↦ replaced (avb_replace (or_else ret cmdline) replace_str guid_buf heap)
            | _ ↦ failed heap
          ]
    ]

unfoldable pub guid_loop :
    (Bytes → AvbIoResult × Bytes)
    → Bytes
    → Bytes
    → List (Bytes × Bytes)
    → Option Bytes
    → Heap
    → Substituted
guid_loop get_guid cmdline ab_suffix [] ret heap = going ret heap
guid_loop get_guid cmdline ab_suffix ((part_name_str, replace_str) ∷ rounds) ret heap =
    elim (guid_round get_guid cmdline ab_suffix part_name_str replace_str ret heap) [
      | failed heap' ↦ failed heap'
      | going ret' heap' ↦ guid_loop get_guid cmdline ab_suffix rounds ret' heap'
    ]

-- The loop over `additional_substitutions`.
unfoldable pub subst_loop : AvbCmdlineSubstList → Bytes → Alloc (Option Bytes)
subst_loop [] ret heap = (some ret, heap)
subst_loop ((token, value) ∷ substitutions) ret heap =
    let (new_ret, heap') = avb_replace ret token value heap in
    elim new_ret [ none ↦ (none, heap') | some ret' ↦ subst_loop substitutions ret' heap' ]

-- `{"system", "boot", "vbmeta"}` with their search strings.
abbrev pub guid_rounds : Bool → List (Bytes × Bytes)
guid_rounds using_boot_for_vbmeta =
    (part_system, token_system)
    ∷ (part_boot, token_boot)
    ∷ (if using_boot_for_vbmeta then part_boot else part_vbmeta, token_vbmeta)
    ∷ []

-- `NULL` for `additional_substitutions` has the effect of an empty list.
unfoldable pub avb_sub_cmdline :
    (Bytes → AvbIoResult × Bytes)
    → Bytes
    → Bytes
    → Bool
    → AvbCmdlineSubstList
    → Alloc (Option Bytes)
avb_sub_cmdline get_guid cmdline ab_suffix using_boot_for_vbmeta additional_substitutions heap =
    elim (guid_loop get_guid cmdline ab_suffix (guid_rounds using_boot_for_vbmeta) none heap) [
      | failed heap' ↦ (none, heap')
      | going (some ret) heap' ↦ subst_loop additional_substitutions ret heap'
      | going none heap' ↦
          let (copy, heap'') = avb_strdup cmdline heap' in
          elim copy [
            | none ↦ (none, heap'')
            | some ret ↦ subst_loop additional_substitutions ret heap''
          ]
    ]

-- The value for a token that `avb_strdupv` has made, and the end.
unfoldable pub add_value :
    Bytes
    → AvbCmdlineSubstList
    → Option Bytes × Heap
    → Option ((AvbSlotVerifyResult × AvbCmdlineSubstList) × Heap)
add_value token list (none, heap) = some ((result_error_oom, list), heap)
add_value token list (some hex, heap) =
    some ((result_ok, list ++ ((avb_uppercase token, hex) ∷ [])), heap)

unfoldable pub add_token :
    Bytes
    → AvbCmdlineSubstList
    → Option (Option Bytes × Heap)
    → Option ((AvbSlotVerifyResult × AvbCmdlineSubstList) × Heap)
add_token digest list none = none
add_token digest list (some (none, heap)) = some ((result_error_oom, list), heap)
add_token digest list (some (some token, heap)) = add_value token list (avb_bin2hex digest heap)

-- `none` is the end of the program by a failed `avb_assert`, which `debug` (`AVB_ENABLE_DEBUG`)
-- enables, or by `avb_fatal` in `avb_strdupv`.
unfoldable pub avb_add_root_digest_substitution :
    Bool
    → Bytes
    → Bytes
    → AvbCmdlineSubstList
    → Heap
    → Option ((AvbSlotVerifyResult × AvbCmdlineSubstList) × Heap)
avb_add_root_digest_substitution debug part_name digest out_cmdline_subst heap =
    if leb 32 (avb_strlen part_name) || ltb 64 (length digest)
    then (if debug then none else some ((result_error_invalid_metadata, out_cmdline_subst), heap))
    else if leb 10 (length out_cmdline_subst)
    then some ((result_error_invalid_metadata, out_cmdline_subst), heap)
    else add_token digest out_cmdline_subst
        (avb_strdupv digest_prefix (part_name ∷ digest_suffix ∷ []) heap)
