-- ===== src/Slot/Finish.antt =====
-- The end of `avb_slot_verify`, behind the verification of the images, records nothing more.
use android_boot_image_edito.Common.{
  ℕ, ◌≡◌, ◌≢◌, refl, arith, Bool, true, false, Bytes, List, [], ◌∷◌,
}
use android_boot_image_edito.Crypto.{Primitives}
use android_boot_image_edito.Vbmeta.Header.{AvbVbMetaImageHeader}
use android_boot_image_edito.Ops.{
  AvbIoResult, AvbSlotVerifyResult, result_ok, AvbHashtreeErrorMode, AvbOps, is_ok,
}
use android_boot_image_edito.Cmdline.Options.{Appended, appended, aborted as append_aborted}
use android_boot_image_edito.Slot.Exec.{AvbVbMetaData, SlotState}
use android_boot_image_edito.Slot.Rules.{
  Yields, Anything, Yields-pure, Yields-bind, Yields-undefined, Yields-assert, Yields-weaken,
  Keeps-bind, Keeps-then, Keeps-pure, Keeps-if, Keeps-if_null, Keeps-lift, Keeps-check,
  Keeps-assert, Yields-leave, keeps_rules,
}
use android_boot_image_edito.Slot.Recorded.{
  Frame, Yields-set_slot_data, Yields-gets, Yields-allocate, Yields-read_value, Yields-write_value,
}
use android_boot_image_edito.Slot.Verity.{
  write_mode, resolve_mode, manage_mode, avb_manage_hashtree_error_mode,
}
use android_boot_image_edito.Slot.Verify.{
  append_options, substitute_cmdline, unverified_cmdline, resolved_mode, verified_cmdline,
  first_image, finish_with, allows_errors,
}

ok_of : (ret : AvbSlotVerifyResult) → is_ok ret ≡ true → ret ≡ result_ok
ok_of ret e = ground arith

module _ {Store : Type 0} {I : SlotState Store → Type 0} (frame : Frame I) where
  Yields-write_mode :
      (ops : AvbOps Store) (digest value : Bytes) (mode : AvbHashtreeErrorMode)
      → Yields I Anything (write_mode ops digest value mode)
  unfolding write_mode
  Yields-write_mode ops digest value mode = search (keeps_rules, Yields-write_value)

  Yields-resolve_mode :
      (ops : AvbOps Store) (digest : Bytes) (io_ret : AvbIoResult) (stored : Bytes)
      → Yields I Anything (resolve_mode ops digest io_ret stored)
  unfolding resolve_mode
  Yields-resolve_mode ops digest io_ret stored = search (keeps_rules, Yields-write_mode) depth 9

  Yields-manage :
      (crypto : Primitives) (ops : AvbOps Store) (flags : ℕ)
      → Yields I Anything (avb_manage_hashtree_error_mode crypto ops flags)
  unfolding avb_manage_hashtree_error_mode manage_mode
  Yields-manage crypto ops flags =
      search (keeps_rules, Yields-write_mode, Yields-resolve_mode, Yields-read_value, Yields-gets)
        depth 12

  Yields-append_options : (a : Appended) → Yields {Store = Store} I Anything (append_options a)
  unfolding append_options
  Yields-append_options (appended ret slot) = record {
    at = λ s h. (
      frame.keeps s
          (record s { heap = slot.heap; slot_data = record s.slot_data { cmdline = slot.cmdline } })
          refl refl h,
      tt,
    );
  }
  Yields-append_options append_aborted = record { at = λ s h. tt }

  Yields-substitute :
      (ops : AvbOps Store) (ab_suffix : Bytes) (boot : Bool) (cmdline : Bytes)
      → Yields I Anything (substitute_cmdline ops ab_suffix boot cmdline)
  unfolding substitute_cmdline
  Yields-substitute ops ab_suffix boot cmdline = Keeps-bind _ _ (Yields-gets frame _) (λ subst.
      Keeps-bind _ _ (Yields-allocate frame _) (λ new.
        Keeps-if_null _ _ _ (Yields-leave _)
          (λ text. Yields-set_slot_data frame _ (λ d. refl) (λ d. refl))))

  module _ (crypto : Primitives) (address : Bytes → ℕ) (ops : AvbOps Store) (names : List Bytes)
      (ab_suffix : Bytes) (flags : ℕ) (mode : AvbHashtreeErrorMode) where
    Yields-unverified_cmdline :
        Yields I Anything (unverified_cmdline crypto address ops names ab_suffix flags mode)
    unfolding unverified_cmdline
    Yields-unverified_cmdline = Keeps-bind _ _ (Yields-gets frame _) (λ c.
        Keeps-bind _ _ (Keeps-assert _) (λ _. Keeps-bind _ _ (Yields-allocate frame _) (λ copy.
          Keeps-bind _ _ (Yields-set_slot_data frame _ (λ d. refl) (λ d. refl))
            (λ _. Keeps-check _ _))))

    Yields-resolved_mode :
        Yields I Anything (resolved_mode crypto address ops names ab_suffix flags mode)
    unfolding resolved_mode
    Yields-resolved_mode = search (keeps_rules, Yields-manage) depth 9

    Yields-verified_cmdline :
        (header : AvbVbMetaImageHeader)
        → Yields I Anything (verified_cmdline crypto address ops names ab_suffix flags mode header)
    unfolding verified_cmdline
    Yields-verified_cmdline header = Keeps-bind _ _ Yields-resolved_mode (λ m.
        Keeps-bind _ _ (Yields-set_slot_data frame _ (λ d. refl) (λ d. refl)) (λ _.
          Keeps-bind _ _ (Yields-gets frame _)
            (λ s. Keeps-bind _ _ (Yields-append_options _) (λ ret. Keeps-check _ _))))

    Yields-first_image :
        (images : List AvbVbMetaData)
        → Yields I
            (λ _. images ≢ [])
            (first_image crypto address ops names ab_suffix flags mode images)
    unfolding first_image
    Yields-first_image [] = Yields-undefined
    Yields-first_image (v ∷ vs) =
        Yields-weaken {F = λ _. Unit {0}} (search keeps_rules) (λ a t e. cc e)

    pub Yields-finish_with :
        (ret : AvbSlotVerifyResult) (images : List AvbVbMetaData)
        → Yields I
            (λ r.
              (images ≢ [])
              × (allows_errors crypto address ops names ab_suffix flags mode ≡ false
                  → r ≡ result_ok))
            (finish_with crypto address ops names ab_suffix flags mode ret images)
    unfolding finish_with
    Yields-finish_with ret images = Yields-bind (Yields-first_image images) (λ first some_image.
        Keeps-then (Keeps-lift _) (λ src. Keeps-then (Yields-allocate frame _) (λ suffix.
          Keeps-then (Yields-set_slot_data frame _ (λ d. refl) (λ d. refl)) (λ _.
            Keeps-then (Keeps-check _ _) (λ _.
              Keeps-then (Keeps-if _ _ _ Yields-unverified_cmdline (Yields-verified_cmdline _))
                (λ _. Keeps-then (Yields-gets frame _) (λ cmdline.
                  Keeps-then
                    (Keeps-if_null cmdline _ _ (Keeps-pure tt) (λ text.
                      Keeps-if _ _ _ (Keeps-pure tt)
                        (Yields-substitute ops ab_suffix (first.1) text)))
                    (λ _. Yields-bind (Yields-assert _) (λ _ good.
                      Yields-pure ret (some_image, λ a. ok_of ret (ground arith)))))))))))
