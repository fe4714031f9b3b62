-- ===== src/Slot/Recursion.antt =====
-- The recursion of `load_and_verify_vbmeta`: at most three calls deep, it records trusted images
-- only.
use android_boot_image_edito.Common.{
  ℕ, suc, ◌≤◌, ◌<◌, ◌^◌, ◌≡◌, refl, sym, ◌∙◌, arith, Bool, true, false, not, ◌&&◌, ◌==◌, Bytes,
  IsBytes, List, inl, subst, [], ◌∷◌, ◌++◌,
}
use android_boot_image_edito.Memory.{ok}
use android_boot_image_edito.Crypto.{Primitives}
use android_boot_image_edito.Footer.{AvbFooter}
use android_boot_image_edito.Ops.{
  AvbIoResult, io_ok, io_error_oom, io_error_io, io_error_no_such_partition,
  io_error_range_outside_partition, io_error_no_such_value, io_error_invalid_value_size,
  io_error_insufficient_space, AvbSlotVerifyResult, AvbOps,
}
use android_boot_image_edito.Cmdline.Words.{part_boot, part_vbmeta}
use android_boot_image_edito.Slot.Exec.{SlotState, Exec}
use android_boot_image_edito.Slot.Rules.{
  Yields, Anything, Yields-pure, Yields-leave, Yields-bind, Yields-if, Yields-lift, Yields-assert,
  Keeps-bind, Keeps-lift, Keeps-check, Yields-function, keeps_rules,
}
use android_boot_image_edito.Slot.Recorded.{Yields-allocated, Yields-with_suffix}
use android_boot_image_edito.Slot.Entries.{VbMetaCall}
use android_boot_image_edito.Slot.Image.{
  locate_vbmeta, after_read, load_vbmeta, toplevel_call, load_and_verify_vbmeta,
}
use android_boot_image_edito.Slot.Checks.{is_main, strncmp_equal, place_of}
use android_boot_image_edito.Slot.Counts.{Sound, Sound-Frame}
use android_boot_image_edito.Slot.Chain.{Good, CallSound, Yields-verify_image}

place_of-short : (found : AvbFooter × Bool) → (place_of found).1 ≤ 65536
place_of-short (footer, true) = ground arith
place_of-short (footer, false) = omega arith

boot_has_footer : strncmp_equal (part_boot ++ (0 ∷ [])) part_vbmeta ≡ ok false
unfolding strncmp_equal
boot_has_footer = refl

module _ (crypto : Primitives) (address : Bytes → ℕ) {Store : Type 0} (ops : AvbOps Store)
    (names : List Bytes) (ab_suffix : Bytes) (flags : ℕ) (allow : Bool)
    (in_space : (name : Bytes) → address name < 2 ^ 64)
    (reads : (name : Bytes) (o n : ℕ) → IsBytes (ops.read_from_partition name o n).1) where
  abbrev pub Kept : SlotState Store → Type 0
  Kept = Sound (Good crypto address ops names ab_suffix flags allow in_space reads)

  abbrev pub SoundCall : VbMetaCall → Type 0
  SoundCall = CallSound crypto address ops names ab_suffix flags allow in_space reads

  Yields-locate :
      (look : Bool) (name : Bytes)
      → Yields Kept
          (λ place. place.1 ≤ 65536)
          (locate_vbmeta crypto address ops names ab_suffix flags allow look name)
  unfolding locate_vbmeta
  Yields-locate look name =
      Yields-if look _ _
        (λ _.
          Yields-bind {F = λ (f : AvbFooter × Bool). Unit {0}} (search keeps_rules)
            (λ found _. Yields-pure _ (place_of-short found)))
        (λ _. Yields-pure _ (omega arith))

  module _ (chain : VbMetaCall → Exec Store AvbSlotVerifyResult) (call : VbMetaCall)
      (boot : Exec Store AvbSlotVerifyResult) (sound : SoundCall call)
      (chain_ok : is_main flags call.rollback_index_location ≡ true
        → (call' : VbMetaCall) → SoundCall call'
        → not (call'.rollback_index_location == 0) ≡ true
        → Yields Kept Anything (chain call'))
      (boot_ok : is_main flags call.rollback_index_location ≡ true
        → strncmp_equal call.partition_name part_vbmeta ≡ ok true
        → Yields Kept Anything boot) where
    both : (a b : Bool) → (a && not (not b)) ≡ true → (a ≡ true) × (b ≡ true)
    both true true e = (refl, refl)
    both true false e = cc e
    both false b e = cc e

    Yields-after_read :
        (is_vbmeta : Bool) (name : Bytes) (size : ℕ) (image : Bytes) (io_ret : AvbIoResult)
        → strncmp_equal call.partition_name part_vbmeta ≡ ok is_vbmeta
        → size ≤ 65536
        → IsBytes image
        → ((place : ℕ) × (n : ℕ) × (ops.read_from_partition name place n ≡ (io_ret, image)))
        → Yields Kept Anything (
            after_read crypto address ops names ab_suffix flags allow chain call boot
              (not is_vbmeta)
              name
              size
              image
              io_ret)
    unfolding after_read
    Yields-after_read is_vbmeta name size image io_ok e short bytes came =
        Yields-bind (Yields-assert _) (λ _ fits.
          Yields-verify_image crypto address ops names ab_suffix flags allow in_space reads call
            sound name image bytes (ground (arith, short)) came chain chain_ok)
    Yields-after_read is_vbmeta name size image io_error_oom e short bytes came = Yields-leave _
    Yields-after_read is_vbmeta name size image io_error_io e short bytes came = Yields-leave _
    Yields-after_read is_vbmeta name size image io_error_no_such_partition e short bytes came =
        Yields-if _ _ _
          (λ t.
            let (main, looked) = both (is_main flags call.rollback_index_location) is_vbmeta t in
            boot_ok main
              (subst (λ b. strncmp_equal call.partition_name part_vbmeta ≡ ok b) looked e))
          (λ _. Yields-leave _)
    Yields-after_read is_vbmeta name size image io_error_range_outside_partition e short bytes
          came =
        Yields-leave _
    Yields-after_read is_vbmeta name size image io_error_no_such_value e short bytes came =
        Yields-leave _
    Yields-after_read is_vbmeta name size image io_error_invalid_value_size e short bytes came =
        Yields-leave _
    Yields-after_read is_vbmeta name size image io_error_insufficient_space e short bytes came =
        Yields-leave _

    Yields-load_vbmeta :
        Yields Kept Anything
          (load_vbmeta crypto address ops names ab_suffix flags allow chain call boot)
    unfolding load_vbmeta
    Yields-load_vbmeta = Yields-function (
        Yields-bind (Yields-lift _) (λ is_vbmeta e. Keeps-bind _ _ (Keeps-lift _) (λ name.
          Keeps-bind _ _ (Keeps-check _ _) (λ _.
            Keeps-bind _ _ (Yields-with_suffix Sound-Frame name ab_suffix) (λ full_name.
              Yields-bind (Yields-locate (not is_vbmeta) full_name) (λ place short.
                Keeps-bind _ _ (Yields-allocated Sound-Frame) (λ _.
                  Yields-after_read is_vbmeta full_name (place.1) _ _ e short
                    (reads full_name (place.0) (place.1)) (place.0, place.1, refl))))))))

  main_is_zero : (location : ℕ) → is_main flags location ≡ true → not (location == 0) ≡ false
  main_is_zero location e = ground arith

  -- A chained image makes no further call.
  Yields-depth_one :
      (depth : ℕ) (call : VbMetaCall)
      → SoundCall call
      → not (call.rollback_index_location == 0) ≡ true
      → Yields Kept Anything
          (load_and_verify_vbmeta crypto address ops names ab_suffix flags allow (suc depth) call)
  unfolding load_and_verify_vbmeta
  Yields-depth_one depth call sound nonzero =
      Yields-load_vbmeta _ call _ sound
        (λ main. absurd (cc (sym nonzero ∙ main_is_zero call.rollback_index_location main)))
        (λ main. absurd (cc (sym nonzero ∙ main_is_zero call.rollback_index_location main)))

  -- The call for `"boot"` makes calls for chained images.
  Yields-depth_two :
      (depth : ℕ) (out : Bool)
      → Yields Kept Anything (
          load_and_verify_vbmeta crypto address ops names ab_suffix flags allow
            (suc (suc depth))
            (toplevel_call crypto address ops names ab_suffix flags allow part_boot out))
  unfolding load_and_verify_vbmeta
  Yields-depth_two depth out =
      Yields-load_vbmeta _ _ _ (inl refl)
        (λ main call' sound' nonzero. Yields-depth_one depth call' sound' nonzero)
        (λ main e. absurd (cc (sym e ∙ boot_has_footer)))

  -- Three calls deep are enough for every sound call.
  pub Yields-load_and_verify_vbmeta :
      (depth : ℕ) (call : VbMetaCall)
      → SoundCall call
      → Yields Kept Anything (
          load_and_verify_vbmeta crypto address ops names ab_suffix flags allow
            (suc (suc (suc depth)))
            call)
  unfolding load_and_verify_vbmeta
  Yields-load_and_verify_vbmeta depth call sound =
      Yields-load_vbmeta _ call _ sound
        (λ main call' sound' nonzero. Yields-depth_one (suc depth) call' sound' nonzero)
        (λ main e. Yields-depth_two depth call.has_outputs)
