-- ===== src/Slot/Forgets.antt =====
-- How `ret` goes through the loop over the descriptors.
use android_boot_image_edito.Common.{
  ℕ, ◌≡◌, refl, ◌∙◌, ap, arith, Bool, true, ◌==◌, Option, none, some, Bytes, List, [], ◌∷◌, ◌++◌,
  drop,
}
use android_boot_image_edito.Memory.{ok, read}
use android_boot_image_edito.Crypto.{Primitives}
use android_boot_image_edito.Descriptor.{
  tag_hashtree, AvbHashtreeDescriptor, avb_descriptor_validate_and_byteswap,
  avb_hashtree_descriptor_validate_and_byteswap,
}
use android_boot_image_edito.Ops.{AvbSlotVerifyResult, result_ok, AvbOps}
use android_boot_image_edito.Slot.Exec.{
  SlotState, Outcome, done, left, aborted, outside, out_of_fuel, Exec, lift, or_leave, check,
  continue, ◌>>=◌, undefined, pure,
}
use android_boot_image_edito.Slot.Entries.{
  VbMetaCall, find_root_digest, hashtree_entry, by_tag, descriptor_entry, entries,
}

-- A hashtree descriptor without root digest at an offset of the image.
pub record WithoutDigest (image : Bytes) (o : ℕ) (desc : AvbHashtreeDescriptor) : Type 0 where
  pub src : Bytes
  pub readable : read (drop o image) 0 16 ≡ ok src
  pub divisible : (avb_descriptor_validate_and_byteswap src).1 ≡ true
  pub tag : (avb_descriptor_validate_and_byteswap src).0.tag ≡ tag_hashtree
  pub valid : avb_hashtree_descriptor_validate_and_byteswap (drop o image) ≡ ok (some desc)
  pub no_digest : desc.root_digest_len ≡ 0

module _ (crypto : Primitives) {Store : Type 0} (ops : AvbOps Store) (names : List Bytes)
    (ab_suffix : Bytes) (allow : Bool) (chain : VbMetaCall → Exec Store AvbSlotVerifyResult)
    (main : Bool) (flags : ℕ) (out : Bool) (image : Bytes) where
  abbrev loop : List (Option ℕ) → AvbSlotVerifyResult → Exec Store AvbSlotVerifyResult
  loop = entries crypto ops names ab_suffix allow chain main flags out image

  -- At such a descriptor the old value of `ret` is not looked at.
  descriptor_entry-WithoutDigest :
      (o : ℕ) (desc : AvbHashtreeDescriptor) (ret : AvbSlotVerifyResult) (s : SlotState Store)
      → WithoutDigest image o desc
      → descriptor_entry crypto ops names ab_suffix allow chain main flags out (drop o image) ret s
        ≡ find_root_digest ops ab_suffix out (drop o image) desc s
  unfolding descriptor_entry by_tag hashtree_entry ◌>>=◌ lift or_leave check
  descriptor_entry-WithoutDigest o desc ret s w =
      let zero_len : (desc.root_digest_len == 0) ≡ true = ground (arith, w.no_digest) in
      simp (w.readable, w.divisible, w.tag, w.valid, zero_len) refl

  first_entry :
      (es : List (Option ℕ)) (o : ℕ) (ret ret' : AvbSlotVerifyResult) (s s' : SlotState Store)
      → descriptor_entry crypto ops names ab_suffix allow chain main flags out (drop o image) ret s
        ≡ done ret' s'
      → loop (some o ∷ es) ret s ≡ loop es ret' s'
  unfolding entries ◌>>=◌
  first_entry es o ret ret' s s' e =
      ap (λ (x : Outcome Store AvbSlotVerifyResult). continue x (loop es)) e

  entries-append :
      (ds : List (Option ℕ)) (es : List (Option ℕ)) (ret error : AvbSlotVerifyResult)
      (s s1 : SlotState Store)
      → loop ds ret s ≡ done error s1
      → loop (ds ++ es) ret s ≡ loop es error s1
  unfolding entries ◌>>=◌ undefined pure
  entries-append [] es ret error s s1 e = cc e
  entries-append (none ∷ ds) es ret error s s1 e = cc e
  entries-append (some o ∷ ds) es ret error s s1 e =
      after
        (descriptor_entry crypto ops names ab_suffix allow chain main flags out (drop o image) ret
          s)
        (λ ret' s'. entries-append ds es ret' error s' s1) e
    where
      after :
          (o : Outcome Store AvbSlotVerifyResult)
          → ((ret' : AvbSlotVerifyResult) (s' : SlotState Store)
              → loop ds ret' s' ≡ done error s1
              → loop (ds ++ es) ret' s' ≡ loop es error s1)
          → continue o (loop ds) ≡ done error s1
          → continue o (loop (ds ++ es)) ≡ loop es error s1
      after (done ret' s') k e = k ret' s' e
      after (left ret' s') k e = cc e
      after aborted k e = cc e
      after outside k e = cc e
      after out_of_fuel k e = cc e

  -- Whatever the descriptors before it have made of `ret`, also an error while none is allowed, the
  -- loop goes on from `OK` behind a hashtree descriptor without root digest whose stored digest is
  -- found: the result of the loop is that of the descriptors behind it.
  pub entries_forget :
      (ds es : List (Option ℕ)) (o : ℕ) (desc : AvbHashtreeDescriptor)
      (ret error : AvbSlotVerifyResult) (s s1 s2 : SlotState Store)
      → entries crypto ops names ab_suffix allow chain main flags out image ds ret s ≡ done error s1
      → WithoutDigest image o desc
      → find_root_digest ops ab_suffix out (drop o image) desc s1 ≡ done result_ok s2
      → entries crypto ops names ab_suffix allow chain main flags out image
          (ds ++ (some o ∷ es))
          ret
          s
        ≡ entries crypto ops names ab_suffix allow chain main flags out image es result_ok s2
  entries_forget ds es o desc ret error s s1 s2 e w found =
      entries-append ds (some o ∷ es) ret error s s1 e
      ∙ first_entry es o error result_ok s1 s2
          (descriptor_entry-WithoutDigest o desc error s1 w ∙ found)
