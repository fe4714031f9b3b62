-- ===== src/Tests/Cmdline.antt =====
-- The kernel command line.
use android_boot_image_edito.Common.{
  bit_and, ◌≢◌, ◌≤◌, ◌≡◌, refl, arith, true, false, some, none, Bytes, List, [], ◌∷◌, ◌++◌, length,
  replicate, All,
}
use android_boot_image_edito.Heap.{Plenty}
use android_boot_image_edito.Ops.{
  AvbIoResult, io_ok, result_ok, mode_eio, mode_managed_restart_and_eio,
}
use android_boot_image_edito.Util.Strings.Replace.{ReplacesTo}
use android_boot_image_edito.Util.Text.Hex.{decode_hex}
use android_boot_image_edito.Cmdline.{uint64_to_base10}
use android_boot_image_edito.Cmdline.Digits.{IsDigit, decimal, base10_exact}
use android_boot_image_edito.Cmdline.Words.{
  digest_prefix, digest_suffix, token_verity, key_veritymode, text_disabled,
}
use android_boot_image_edito.Cmdline.Options.{appended, text, avb_append_options}
use android_boot_image_edito.Cmdline.Options.Laws.{
  with_options, vbmeta_options, device_options, managed_options, plain, verity_mode, dm_verity_mode,
  invalidate_options, append_options_enabled, append_options_disabled,
}
use android_boot_image_edito.Cmdline.Subst.{avb_sub_cmdline, avb_add_root_digest_substitution}
use android_boot_image_edito.Cmdline.Subst.Laws.{
  placeholders, Replacements, guids, sub_cmdline_exact,
}
use android_boot_image_edito.Cmdline.Subst.Digest.{
  IsUpperOf, Kept, add_root_digest_exact, add_root_digest_bounded,
}
use android_boot_image_edito.Tests.Bytes.{all_bytes-IsBytes}
use android_boot_image_edito.Tests.Vbmeta.{sample_crypto}

base10_exact_example :
    All IsDigit (uint64_to_base10 18446744073709551615)
    × (length (uint64_to_base10 18446744073709551615) ≤ 20)
    × (decimal 0 (uint64_to_base10 18446744073709551615) ≡ 18446744073709551615)
base10_exact_example = base10_exact 18446744073709551615 (omega arith)

-- "root=$(ANDROID_SYSTEM_PARTUUID) dm=$(A)"
abbrev cmdline : Bytes
cmdline =
    114 ∷ 111 ∷ 111 ∷ 116 ∷ 61 ∷ 36 ∷ 40 ∷ 65 ∷ 78 ∷ 68 ∷ 82 ∷ 79 ∷ 73 ∷ 68 ∷ 95 ∷ 83 ∷ 89 ∷ 83 ∷ 84
    ∷ 69 ∷ 77 ∷ 95 ∷ 80 ∷ 65 ∷ 82 ∷ 84 ∷ 85 ∷ 85 ∷ 73 ∷ 68 ∷ 41 ∷ 32 ∷ 100 ∷ 109 ∷ 61 ∷ 36 ∷ 40 ∷ 65
    ∷ 41 ∷ []

abbrev get_guid : Bytes → AvbIoResult × Bytes
get_guid name = (io_ok, 49 ∷ 45 ∷ name)

-- "$(A)" stands for "b".
abbrev substitutions : List (Bytes × Bytes)
substitutions = (36 ∷ 40 ∷ 65 ∷ 41 ∷ [], 98 ∷ []) ∷ []

-- "_a"
abbrev suffix : Bytes
suffix = 95 ∷ 97 ∷ []

sub_cmdline_exact_example :
    (out : Bytes) × (avb_sub_cmdline get_guid cmdline suffix false substitutions Plenty
      ≡ (some out, Plenty))
    × Replacements (guids get_guid cmdline suffix (placeholders false) ++ substitutions) cmdline out
sub_cmdline_exact_example =
    sub_cmdline_exact get_guid cmdline suffix false substitutions (λ part. refl) (omega arith)
      (omega arith, tt)

abbrev images : List Bytes
images = cmdline ∷ suffix ∷ []

append_options_enabled_example :
    (out : Bytes) × ReplacesTo token_verity
      (dm_verity_mode mode_eio)
      (text (
        with_options
          (with_options
            (some cmdline)
            (device_options 0 ++ vbmeta_options sample_crypto true images 1))
          (invalidate_options mode_eio)))
      out
    × (avb_append_options sample_crypto
          (io_ok, true)
          0
          (plain (some cmdline))
          images
          2
          1
          mode_managed_restart_and_eio
          mode_eio
        ≡ appended result_ok (
            plain (
              with_options (some out) (
                (key_veritymode, verity_mode mode_eio)
                ∷ managed_options mode_managed_restart_and_eio))))
append_options_enabled_example =
    append_options_enabled sample_crypto true 0 (some cmdline) images 2 1
      mode_managed_restart_and_eio mode_eio (omega arith) refl (λ e. cc e)

disabled : bit_and 1 1 ≢ 0
disabled e = let one : 1 ≡ 0 = e in absurd (omega arith)

append_options_disabled_example :
    avb_append_options sample_crypto (io_ok, false) 4 (plain none) images 1 5 mode_eio mode_eio
    ≡ appended result_ok (
        plain (
          with_options
            (with_options none (device_options 4 ++ vbmeta_options sample_crypto false images 5))
            ((key_veritymode, text_disabled) ∷ managed_options mode_eio)))
append_options_disabled_example =
    append_options_disabled sample_crypto false 4 none images 1 5 mode_eio mode_eio (omega arith)
      disabled

-- "foo"
abbrev foo : Bytes
foo = 102 ∷ 111 ∷ 111 ∷ []

abbrev digest : Bytes
digest = replicate 32 171

add_root_digest_exact_example :
    (token : Bytes) × (hex : Bytes) × IsUpperOf (digest_prefix ++ (foo ++ digest_suffix)) token
    × (decode_hex hex ≡ digest)
    × (avb_add_root_digest_substitution true foo digest substitutions Plenty
        ≡ some ((result_ok, substitutions ++ ((token, hex) ∷ [])), Plenty))
add_root_digest_exact_example =
    add_root_digest_exact true foo digest substitutions (omega arith)
      (all_bytes-IsBytes digest refl) (omega arith) (omega arith)

add_root_digest_bounded_example :
    Kept substitutions
      (avb_add_root_digest_substitution true foo digest substitutions (true ∷ false ∷ []))
add_root_digest_bounded_example =
    add_root_digest_bounded true foo digest substitutions (true ∷ false ∷ []) (omega arith)
