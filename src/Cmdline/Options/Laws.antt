-- ===== src/Cmdline/Options/Laws.antt =====
-- The command line that `avb_append_options` makes when no allocation fails.
use android_boot_image_edito.Heap.{Heap, Plenty}
use android_boot_image_edito.Common.{
  ap, drop, false, ◌∙◌, inl, inr, Bool-cases, refl, ◌≢◌, ==_iff, ℕ, ◌≤◌, ◌≡◌, arith, Bool, true,
  not, leb, ◌==◌, if◌then◌else◌, Option, some, bit_and, List, Bytes, [], ◌∷◌, ◌++◌, ◌+◌, ◌%◌, ◌^◌,
  none, length, append_assoc, subst,
}
use android_boot_image_edito.Cmdline.Options.{
  text, appended, replace_verity, Appended, total_size_of, append_digest, append_hash_options,
  append_error_mode, is_managed, append_veritymode, append_vbmeta_options, avb_append_options,
}
use android_boot_image_edito.Cmdline.Words.{
  text_disabled, key_invalidate, text_yes, text_enforcing, text_restart, text_eio, text_ignore_zero,
  text_logging, text_ignore, token_verity, key_veritymode, key_managed, key_device, partuuid,
  key_avb_version, key_device_state, text_unlocked, text_locked, key_hash_alg, text_sha256,
  text_sha512, key_size, key_digest,
}
use android_boot_image_edito.Util.Strings.Replace.{ReplacesTo, replace_all}
use android_boot_image_edito.Util.Strings.{avb_replace}
use android_boot_image_edito.Ops.{
  result_ok, AvbHashtreeErrorMode, mode_restart_and_invalidate, mode_restart, mode_eio,
  mode_logging, mode_managed_restart_and_eio, io_ok,
}
use android_boot_image_edito.Crypto.{Primitives}
use android_boot_image_edito.Util.Text.{hex_loop, avb_bin2hex}
use android_boot_image_edito.Cmdline.{
  SlotCmdline, before_option, uint64_to_base10, cmdline_append_option, cmdline_append_version,
  cmdline_append_uint64_base10, cmdline_append_hex,
}

-- A word at the end of a line, after a space unless it is the first one.
abbrev pub behind : Bytes → Bytes → Bytes
behind [] word = word
behind (c ∷ line) word = c ∷ (line ++ (32 ∷ word))

-- A command line with options behind it, as `key=value` after a space each.
abbrev pub with_options : Option Bytes → List (Bytes × Bytes) → Option Bytes
with_options cmdline [] = cmdline
with_options cmdline ((key, value) ∷ options) =
    with_options (some (behind (text cmdline) (key ++ (61 ∷ value)))) options

before_option-behind :
    (cmdline : Option Bytes) (word : Bytes)
    → before_option cmdline ++ word ≡ behind (text cmdline) word
before_option-behind none word = refl
before_option-behind (some []) word = refl
before_option-behind (some (c ∷ line)) word = ap (λ l. c ∷ l) (append_assoc line (32 ∷ []) word)

-- The bytes of all images together.
abbrev pub bytes_of : List Bytes → ℕ
bytes_of [] = 0
bytes_of (image ∷ images) = length image + bytes_of images

total_size_of-bytes_of :
    (images : List Bytes) (n : ℕ)
    → total_size_of images (n % 2 ^ 64) ≡ (n + bytes_of images) % 2 ^ 64
unfolding total_size_of
total_size_of-bytes_of [] n = omega arith
total_size_of-bytes_of (image ∷ images) n =
    let first : (n % 2 ^ 64 + length image) % 2 ^ 64 ≡ (n + length image) % 2 ^ 64 = omega arith in
    ap (total_size_of images) first ∙ total_size_of-bytes_of images (n + length image) ∙ omega arith

-- The same as the code makes it.
abbrev coded_options : Option Bytes → List (Bytes × Bytes) → Option Bytes
coded_options cmdline [] = cmdline
coded_options cmdline ((key, value) ∷ options) =
    coded_options (some (before_option cmdline ++ (key ++ (61 ∷ value)))) options

-- The options from `androidboot.vbmeta.avb_version` to `androidboot.vbmeta.digest`.
abbrev sized_options : ℕ → Primitives → Bool → List Bytes → ℕ → List (Bytes × Bytes)
sized_options size crypto unlocked images algorithm =
    (key_avb_version, uint64_to_base10 1 ++ (46 ∷ uint64_to_base10 1))
    ∷ (key_device_state, if unlocked then text_unlocked else text_locked)
    ∷ (key_hash_alg, if leb algorithm 3 then text_sha256 else text_sha512)
    ∷ (key_size, uint64_to_base10 size)
    ∷ (
      key_digest,
      hex_loop (if leb algorithm 3 then crypto.sha256 images else crypto.sha512 images),
    )
    ∷ []

abbrev pub vbmeta_options : Primitives → Bool → List Bytes → ℕ → List (Bytes × Bytes)
vbmeta_options crypto unlocked images algorithm =
    sized_options (bytes_of images % 2 ^ 64) crypto unlocked images algorithm

abbrev pub device_options : ℕ → List (Bytes × Bytes)
device_options flags = if bit_and flags 4 == 0 then (key_device, partuuid) ∷ [] else []

abbrev pub managed_options : AvbHashtreeErrorMode → List (Bytes × Bytes)
managed_options mode_managed_restart_and_eio = (key_managed, text_yes) ∷ []
managed_options _ = []

abbrev coded_managed : AvbHashtreeErrorMode → List (Bytes × Bytes)
coded_managed mode = if is_managed mode then (key_managed, text_yes) ∷ [] else []

abbrev pub plain : Option Bytes → SlotCmdline
plain cmdline = record { cmdline = cmdline; heap = Plenty }

append_option-Plenty :
    (cmdline : Option Bytes) (key value : Bytes)
    → cmdline_append_option (plain cmdline) key value
      ≡ (true, plain (coded_options cmdline ((key, value) ∷ [])))
unfolding cmdline_append_option
append_option-Plenty cmdline key value = refl

hash_options-Plenty :
    (crypto : Primitives) (cmdline : Option Bytes) (images : List Bytes) (algorithm : ℕ)
    (rest : SlotCmdline → Appended)
    → algorithm ≤ 6
    → append_hash_options crypto (plain cmdline) images algorithm rest
      ≡ rest (
          plain (
            coded_options cmdline (
              (key_hash_alg, if leb algorithm 3 then text_sha256 else text_sha512)
              ∷ (key_size, uint64_to_base10 (total_size_of images 0))
              ∷ (
                key_digest,
                hex_loop (if leb algorithm 3 then crypto.sha256 images else crypto.sha512 images),
              )
              ∷ [])))
unfolding append_hash_options append_digest cmdline_append_option cmdline_append_uint64_base10
    cmdline_append_hex avb_bin2hex
hash_options-Plenty crypto cmdline images algorithm rest h =
    let six : leb algorithm 6 ≡ true = ground arith in
    elim (Bool-cases (leb algorithm 3)) [ inl small ↦ rw small | inr large ↦ rw (large, six) ]

-- The options up to the digest, whatever comes then.
options-Plenty :
    (crypto : Primitives) (unlocked : Bool) (flags : ℕ) (cmdline : Option Bytes)
    (images : List Bytes) (vbmeta_flags algorithm : ℕ) (mode resolved : AvbHashtreeErrorMode)
    → algorithm ≤ 6
    → avb_append_options crypto
        (io_ok, unlocked)
        flags
        (plain cmdline)
        images
        vbmeta_flags
        algorithm
        mode
        resolved
      ≡ (let slot1 = plain (
            coded_options cmdline (
              device_options flags
              ++ sized_options (total_size_of images 0) crypto unlocked images algorithm)) in
          if not (bit_and vbmeta_flags 1 == 0)
          then append_veritymode mode text_disabled slot1
          else append_error_mode resolved slot1 (append_veritymode mode))
unfolding avb_append_options append_vbmeta_options cmdline_append_option cmdline_append_version
options-Plenty crypto unlocked flags cmdline images vbmeta_flags algorithm mode resolved h =
    elim (Bool-cases (bit_and flags 4 == 0)) [
      | inl device ↦ rw device (hash_options-Plenty crypto _ images algorithm _ h)
      | inr other ↦ rw other (hash_options-Plenty crypto _ images algorithm _ h)
    ]

veritymode-Plenty :
    (mode : AvbHashtreeErrorMode) (verity_mode : Bytes) (cmdline : Option Bytes)
    → append_veritymode mode verity_mode (plain cmdline)
      ≡ appended result_ok
          (plain (coded_options cmdline ((key_veritymode, verity_mode) ∷ coded_managed mode)))
unfolding append_veritymode cmdline_append_option
veritymode-Plenty mode verity_mode cmdline = elim (Bool-cases (is_managed mode)) [
  | inl managed ↦ rw managed
  | inr other ↦ rw other
]

-- The mode names that stand for a way to handle errors, and what it appends before.
abbrev pub verity_mode : AvbHashtreeErrorMode → Bytes
verity_mode mode_eio = text_eio
verity_mode mode_logging = text_logging
verity_mode _ = text_enforcing

abbrev pub dm_verity_mode : AvbHashtreeErrorMode → Bytes
dm_verity_mode mode_eio = text_ignore_zero
dm_verity_mode mode_logging = text_ignore
dm_verity_mode _ = text_restart

abbrev pub invalidate_options : AvbHashtreeErrorMode → List (Bytes × Bytes)
invalidate_options mode_restart_and_invalidate = (key_invalidate, text_yes) ∷ []
invalidate_options _ = []

replace_verity-Plenty :
    (cmdline : Option Bytes) (dm out : Bytes) (rest : SlotCmdline → Appended)
    → avb_replace (text cmdline) token_verity dm Plenty ≡ (some out, Plenty)
    → replace_verity (plain cmdline) dm rest ≡ rest (plain (some out))
unfolding replace_verity
replace_verity-Plenty cmdline dm out rest e =
    rw (ap (λ (r : Option Bytes × Heap). r.0) e, replace_verity)
      (ap (λ (r : Option Bytes × Heap). rest (record { cmdline = r.0; heap = r.1 })) e)

error_mode-Plenty :
    (resolved : AvbHashtreeErrorMode) (cmdline : Option Bytes)
    (rest : Bytes → SlotCmdline → Appended) (out : Bytes)
    → resolved ≢ mode_managed_restart_and_eio
    → avb_replace
        (text (coded_options cmdline (invalidate_options resolved)))
        token_verity
        (dm_verity_mode resolved)
        Plenty
      ≡ (some out, Plenty)
    → append_error_mode resolved (plain cmdline) rest
      ≡ rest (verity_mode resolved) (plain (some out))
unfolding append_error_mode cmdline_append_option
error_mode-Plenty mode_restart_and_invalidate cmdline rest out h e =
    replace_verity-Plenty _ text_restart out (rest text_enforcing) e
error_mode-Plenty mode_restart cmdline rest out h e =
    replace_verity-Plenty _ text_restart out (rest text_enforcing) e
error_mode-Plenty mode_eio cmdline rest out h e =
    replace_verity-Plenty _ text_ignore_zero out (rest text_eio) e
error_mode-Plenty mode_logging cmdline rest out h e =
    replace_verity-Plenty _ text_ignore out (rest text_logging) e
error_mode-Plenty mode_managed_restart_and_eio cmdline rest out h e = absurd (h refl)

-- The command lines in terms of how options are put behind a line, the number that the size option
-- has, and the options of the managed mode.
abbrev Enabled :
    (Option Bytes → List (Bytes × Bytes) → Option Bytes)
    → ℕ
    → List (Bytes × Bytes)
    → Primitives
    → Bool
    → ℕ
    → Option Bytes
    → List Bytes
    → ℕ
    → ℕ
    → AvbHashtreeErrorMode
    → AvbHashtreeErrorMode
    → Type 0
Enabled put size managed crypto unlocked flags cmdline images vbmeta_flags algorithm mode resolved =
    (out : Bytes) × ReplacesTo token_verity (dm_verity_mode resolved)
      (text (
        put
          (put cmdline
            (device_options flags ++ sized_options size crypto unlocked images algorithm))
          (invalidate_options resolved)))
      out
    × (avb_append_options crypto (io_ok, unlocked) flags (plain cmdline) images vbmeta_flags
          algorithm mode resolved
        ≡ appended result_ok
            (plain (put (some out) ((key_veritymode, verity_mode resolved) ∷ managed))))

coded_options-with_options :
    (cmdline : Option Bytes) (options : List (Bytes × Bytes))
    → coded_options cmdline options ≡ with_options cmdline options
coded_options-with_options cmdline [] = refl
coded_options-with_options cmdline ((key, value) ∷ options) =
    ap (λ line. coded_options (some line) options)
      (before_option-behind cmdline (key ++ (61 ∷ value)))
    ∙ coded_options-with_options (some (behind (text cmdline) (key ++ (61 ∷ value)))) options

same_options : coded_options ≡ with_options
same_options = λ i cmdline options. coded_options-with_options cmdline options i

same_size : (images : List Bytes) → total_size_of images 0 ≡ bytes_of images % 2 ^ 64
same_size images = total_size_of-bytes_of images 0 ∙ omega arith

same_managed : (mode : AvbHashtreeErrorMode) → coded_managed mode ≡ managed_options mode
same_managed mode_restart_and_invalidate = refl
same_managed mode_restart = refl
same_managed mode_eio = refl
same_managed mode_logging = refl
same_managed mode_managed_restart_and_eio = refl

coded-Enabled :
    (crypto : Primitives) (unlocked : Bool) (flags : ℕ) (cmdline : Option Bytes)
    (images : List Bytes) (vbmeta_flags algorithm : ℕ) (mode resolved : AvbHashtreeErrorMode)
    → algorithm ≤ 6
    → bit_and vbmeta_flags 1 ≡ 0
    → resolved ≢ mode_managed_restart_and_eio
    → Enabled coded_options
        (total_size_of images 0)
        (coded_managed mode)
        crypto
        unlocked
        flags
        cmdline
        images
        vbmeta_flags
        algorithm
        mode
        resolved
coded-Enabled crypto unlocked flags cmdline images vbmeta_flags algorithm mode resolved h e m =
    let line = coded_options cmdline (
      device_options flags
      ++ sized_options (total_size_of images 0) crypto unlocked images algorithm) in
    let (out, replaced, t) =
      replace_all 36 (drop 1 token_verity) (dm_verity_mode resolved)
        (text (coded_options line (invalidate_options resolved))) in
    let enabled : (bit_and vbmeta_flags 1 == 0) ≡ true = (==_iff _ 0).1 e in
    (
      out,
      t,
      options-Plenty crypto unlocked flags cmdline images vbmeta_flags algorithm mode resolved h
          ∙ rw enabled (
              error_mode-Plenty resolved line (append_veritymode mode) out m replaced
              ∙ veritymode-Plenty mode (verity_mode resolved) (some out)),
    )

-- With memory to spare, a device state that was read, a known algorithm and hash trees enabled, the
-- result is `OK` with the command line that has the vbmeta options, each placeholder of the verity
-- mode replaced in it, and the mode's options last.
pub append_options_enabled :
    (crypto : Primitives) (unlocked : Bool) (flags : ℕ) (cmdline : Option Bytes)
    (images : List Bytes) (vbmeta_flags algorithm : ℕ) (mode resolved : AvbHashtreeErrorMode)
    → algorithm ≤ 6
    → bit_and vbmeta_flags 1 ≡ 0
    → resolved ≢ mode_managed_restart_and_eio
    → (out : Bytes) × ReplacesTo token_verity
        (dm_verity_mode resolved)
        (text (
          with_options
            (with_options cmdline
              (device_options flags ++ vbmeta_options crypto unlocked images algorithm))
            (invalidate_options resolved)))
        out
      × (avb_append_options crypto
            (io_ok, unlocked)
            flags
            (plain cmdline)
            images
            vbmeta_flags
            algorithm
            mode
            resolved
          ≡ appended result_ok (
              plain (
                with_options
                  (some out)
                  ((key_veritymode, verity_mode resolved) ∷ managed_options mode))))
append_options_enabled crypto unlocked flags cmdline images vbmeta_flags algorithm mode resolved h e
      m =
    subst
      (λ put.
        Enabled put (bytes_of images % 2 ^ 64) (managed_options mode) crypto unlocked flags cmdline
          images vbmeta_flags algorithm mode resolved)
      same_options
      (subst
        (λ size.
          Enabled coded_options size (managed_options mode) crypto unlocked flags cmdline images
            vbmeta_flags algorithm mode resolved)
        (same_size images)
        (subst
          (λ managed.
            Enabled coded_options (total_size_of images 0) managed crypto unlocked flags cmdline
              images vbmeta_flags algorithm mode resolved)
          (same_managed mode)
          (coded-Enabled crypto unlocked flags cmdline images vbmeta_flags algorithm mode resolved h
            e m)))

coded-Disabled :
    (crypto : Primitives) (unlocked : Bool) (flags : ℕ) (cmdline : Option Bytes)
    (images : List Bytes) (vbmeta_flags algorithm : ℕ) (mode resolved : AvbHashtreeErrorMode)
    → algorithm ≤ 6
    → bit_and vbmeta_flags 1 ≢ 0
    → avb_append_options crypto
        (io_ok, unlocked)
        flags
        (plain cmdline)
        images
        vbmeta_flags
        algorithm
        mode
        resolved
      ≡ appended result_ok (
          plain (
            coded_options
              (coded_options cmdline (
                device_options flags
                ++ sized_options (total_size_of images 0) crypto unlocked images algorithm))
              ((key_veritymode, text_disabled) ∷ coded_managed mode)))
coded-Disabled crypto unlocked flags cmdline images vbmeta_flags algorithm mode resolved h e =
    let disabled : (bit_and vbmeta_flags 1 == 0) ≡ false =
      elim (Bool-cases (bit_and vbmeta_flags 1 == 0)) [
        | inl zero ↦ absurd (e ((==_iff _ 0).0 zero))
        | inr d ↦ d
      ] in
    options-Plenty crypto unlocked flags cmdline images vbmeta_flags algorithm mode resolved h
    ∙ rw disabled (veritymode-Plenty mode text_disabled _)

-- With hash trees disabled by the flags of the vbmeta image, the verity mode is `disabled` and no
-- placeholder is replaced, whatever the error mode.
pub append_options_disabled :
    (crypto : Primitives) (unlocked : Bool) (flags : ℕ) (cmdline : Option Bytes)
    (images : List Bytes) (vbmeta_flags algorithm : ℕ) (mode resolved : AvbHashtreeErrorMode)
    → algorithm ≤ 6
    → bit_and vbmeta_flags 1 ≢ 0
    → avb_append_options crypto
        (io_ok, unlocked)
        flags
        (plain cmdline)
        images
        vbmeta_flags
        algorithm
        mode
        resolved
      ≡ appended result_ok (
          plain (
            with_options
              (with_options cmdline
                (device_options flags ++ vbmeta_options crypto unlocked images algorithm))
              ((key_veritymode, text_disabled) ∷ managed_options mode)))
append_options_disabled crypto unlocked flags cmdline images vbmeta_flags algorithm mode resolved h
      e =
    coded-Disabled crypto unlocked flags cmdline images vbmeta_flags algorithm mode resolved h e
    ∙ ap
        (λ (put : Option Bytes → List (Bytes × Bytes) → Option Bytes). appended result_ok (
          plain (
            put
              (put cmdline (
                device_options flags
                ++ sized_options (total_size_of images 0) crypto unlocked images algorithm))
              ((key_veritymode, text_disabled) ∷ coded_managed mode))))
        same_options
    ∙ ap
        (λ size. appended result_ok (
          plain (
            with_options
              (with_options cmdline
                (device_options flags ++ sized_options size crypto unlocked images algorithm))
              ((key_veritymode, text_disabled) ∷ coded_managed mode))))
        (same_size images)
    ∙ ap
        (λ managed. appended result_ok (
          plain (
            with_options
              (with_options cmdline
                (device_options flags ++ vbmeta_options crypto unlocked images algorithm))
              ((key_veritymode, text_disabled) ∷ managed))))
        (same_managed mode)
