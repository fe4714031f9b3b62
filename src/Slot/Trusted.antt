-- ===== src/Slot/Trusted.antt =====
-- What `avb_slot_verify` hands out: trusted images, and arrays that are not full beyond their size.
use android_boot_image_edito.Common.{
  ℕ, ◌≤◌, ◌<◌, ◌^◌, ◌≡◌, ◌≢◌, refl, sym, ◌∙◌, ap, subst, arith, Bool, false, some, bit_and, Bytes,
  IsBytes, List, [], ◌∷◌, length, All, inl,
}
use android_boot_image_edito.Heap.{Heap}
use android_boot_image_edito.Crypto.{Primitives}
use android_boot_image_edito.Ops.{AvbSlotVerifyResult, result_ok, AvbHashtreeErrorMode, AvbOps}
use android_boot_image_edito.Slot.Exec.{
  AvbVbMetaData, AvbSlotVerifyData, SlotState, Outcome, done, left, aborted, outside, out_of_fuel,
  gets, ◌>>=◌,
}
use android_boot_image_edito.Slot.Rules.{
  Ends, Yields, Anything, Yields-abort, Keeps-then, Keeps-pure, Keeps-if, Keeps-check,
}
use android_boot_image_edito.Slot.Ensures.{EndsWith, Ensures, Ensures-then}
use android_boot_image_edito.Slot.Recorded.{Frame, Yields-allocated}
use android_boot_image_edito.Slot.Verify.{
  load_toplevel, load_each, load_images, finish_with, finish_slot, slot_steps, verified, unfinished,
  slot_result, initial_state, avb_slot_verify, allows_errors,
}
use android_boot_image_edito.Slot.Counts.{Sound-Frame}
use android_boot_image_edito.Slot.Trust.{IsTrusted}
use android_boot_image_edito.Slot.Chain.{Good}
use android_boot_image_edito.Slot.Finish.{Yields-finish_with}
use android_boot_image_edito.Slot.Recursion.{Kept, Yields-load_and_verify_vbmeta}

module _ (crypto : Primitives) (address : Bytes → ℕ) {Store : Type 0} (ops : AvbOps Store)
    (names : List Bytes) (ab_suffix : Bytes) (flags : ℕ) (mode : AvbHashtreeErrorMode)
    (in_space : (name : Bytes) → address name < 2 ^ 64)
    (reads : (name : Bytes) (o n : ℕ) → IsBytes (ops.read_from_partition name o n).1) where
  abbrev allow : Bool
  allow = allows_errors crypto address ops names ab_suffix flags mode

  abbrev Safe : SlotState Store → Type 0
  Safe = Kept crypto address ops names ab_suffix flags allow in_space reads

  -- What holds at the end: an image is recorded, and the result is `OK` unless errors are allowed.
  abbrev Finished : AvbSlotVerifyResult → SlotState Store → Type 0
  Finished r s = (s.slot_data.vbmeta_images ≢ []) × (allow ≡ false → r ≡ result_ok)

  Ensures-finish_slot :
      (ret : AvbSlotVerifyResult)
      → Ensures Safe Finished (finish_slot crypto address ops names ab_suffix flags mode ret)
  unfolding finish_slot ◌>>=◌ gets
  Ensures-finish_slot ret = record {
    at = λ s h.
        let images = s.slot_data.vbmeta_images in
        finished_lem s (finish_with crypto address ops names ab_suffix flags mode ret images s) (
          (Yields-finish_with (same_images s) crypto address ops names ab_suffix flags mode ret
              images).at
            s (h, refl));
  }
    where
      same_images :
          (s : SlotState Store)
          → Frame {Store = Store}
              (λ s'. Safe s' × (s'.slot_data.vbmeta_images ≡ s.slot_data.vbmeta_images))
      same_images s = record { keeps = λ s1 s2 p q h. (Sound-Frame.keeps s1 s2 p q (h.0), p ∙ h.1) }

      finished_lem :
          (s : SlotState Store) (o : Outcome Store AvbSlotVerifyResult)
          → Ends
              (λ s'. Safe s' × (s'.slot_data.vbmeta_images ≡ s.slot_data.vbmeta_images))
              (λ r. (s.slot_data.vbmeta_images ≢ []) × (allow ≡ false → r ≡ result_ok))
              o
          → EndsWith Safe Finished o
      finished_lem s (done r s') h =
          let (kept, fact) = h in (kept.0, (λ e. fact.0 (sym (kept.1) ∙ e), fact.1))
      finished_lem s (left ret s') h = h.0
      finished_lem s aborted h = tt
      finished_lem s outside h = tt
      finished_lem s out_of_fuel h = h

  Yields-load_toplevel :
      (name : Bytes)
      → Yields Safe Anything (load_toplevel crypto address ops names ab_suffix flags mode name)
  unfolding load_toplevel
  Yields-load_toplevel name =
      Keeps-then
        (Yields-load_and_verify_vbmeta crypto address ops names ab_suffix flags allow in_space reads
          0 _ (inl refl))
        (λ ret. Keeps-then (Keeps-check _ _) (λ _. Keeps-pure ret))

  Yields-load_each :
      (partitions : List Bytes) (ret : AvbSlotVerifyResult)
      → Yields Safe Anything
          (load_each crypto address ops names ab_suffix flags mode partitions ret)
  unfolding load_each
  Yields-load_each [] ret = Keeps-pure ret
  Yields-load_each (name ∷ partitions) ret =
      Keeps-then (Yields-load_toplevel name) (λ ret'. Yields-load_each partitions ret')

  Yields-load_images :
      Yields Safe Anything (load_images crypto address ops names ab_suffix flags mode)
  unfolding load_images
  Yields-load_images =
      Keeps-if _ _ _ (Yields-load_toplevel _)
        (Keeps-if _ _ _ Yields-abort (Yields-load_each names result_ok))

  Ensures-slot_steps :
      Ensures Safe Finished (slot_steps crypto address ops names ab_suffix flags mode)
  unfolding slot_steps
  Ensures-slot_steps = Ensures-then (Keeps-check _ _) (λ _.
      Ensures-then (Yields-allocated Sound-Frame) (λ _.
        Ensures-then (Yields-allocated Sound-Frame) (λ _.
          Ensures-then (Yields-allocated Sound-Frame) (λ _.
            Ensures-then (Yields-allocated Sound-Frame) (λ _.
              Ensures-then Yields-load_images
                (λ ret. Ensures-then (Keeps-check _ _) (λ _. Ensures-finish_slot ret)))))))

  slot_steps-EndsWith :
      (heap : Heap) (store : Store)
      → EndsWith Safe Finished
          (slot_steps crypto address ops names ab_suffix flags mode (initial_state heap store))
  slot_steps-EndsWith heap store =
      Ensures-slot_steps.at (initial_state heap store)
        (record { good = tt; images = omega arith; partitions = omega arith })

  handed_out :
      (o : Outcome Store AvbSlotVerifyResult) (ret : AvbSlotVerifyResult)
      (slot_data : AvbSlotVerifyData) (store : Store)
      → EndsWith Safe Finished o
      → slot_result o ≡ verified ret (some slot_data) store
      → (s : SlotState Store) × Safe s × Finished ret s × (s.slot_data ≡ slot_data)
  handed_out (done r s) ret slot_data store h e =
      let same : r ≡ ret = cc e in (s, h.0, subst (λ x. Finished x s) same (h.1), cc e)
  handed_out (left r s) ret slot_data store h e = cc e
  handed_out aborted ret slot_data store h e = cc e
  handed_out outside ret slot_data store h e = cc e
  handed_out out_of_fuel ret slot_data store h e = cc e

  -- Without errors allowed, slot data is handed out with the result `OK` only, it has an image,
  -- and every image in it is trusted: it was read from a partition, it verifies with its own key,
  -- its rollback index is not below the stored one of the location, and the boot loader trusts the
  -- key, with the key metadata of the image, for the location; or the key is that of a valid chain
  -- partition descriptor with the location, which stands in the descriptor region of a trusted
  -- image. Reads give bytes, and buffers are in the address space.
  pub slot_verify-Trusted :
      (heap : Heap) (store : Store) (ret : AvbSlotVerifyResult) (slot_data : AvbSlotVerifyData)
      (store' : Store)
      → bit_and flags 1 ≡ 0
      → avb_slot_verify crypto address ops names ab_suffix flags mode heap store
        ≡ verified ret (some slot_data) store'
      → (ret ≡ result_ok)
        × (slot_data.vbmeta_images ≢ [])
        × All (IsTrusted crypto address ops) slot_data.vbmeta_images
  unfolding avb_slot_verify
  slot_verify-Trusted heap store ret slot_data store' locked e =
      let (s, safe, finished, same) =
        handed_out _ ret slot_data store' (slot_steps-EndsWith heap store) e in
      let strict : allow ≡ false = ground arith in
      (
        finished.1 strict,
        (λ none_left.
            finished.0 (ap (λ (d : AvbSlotVerifyData). d.vbmeta_images) same ∙ none_left)),
        subst (λ (d : AvbSlotVerifyData). All (IsTrusted crypto address ops) d.vbmeta_images) same
            (All-map s.slot_data.vbmeta_images strict safe.good),
      )
    where
      All-map :
          (vs : List AvbVbMetaData)
          → allow ≡ false
          → All (Good crypto address ops names ab_suffix flags allow in_space reads) vs
          → All (IsTrusted crypto address ops) vs
      All-map [] a h = tt
      All-map (v ∷ vs) a h = (h.0 a, All-map vs a (h.1))

  -- With any flags, slot data that is handed out has one image at least and 32 at most, and at most
  -- 32 loaded partitions: no array is written outside.
  pub slot_verify_bounded :
      (heap : Heap) (store : Store) (ret : AvbSlotVerifyResult) (slot_data : AvbSlotVerifyData)
      (store' : Store)
      → avb_slot_verify crypto address ops names ab_suffix flags mode heap store
        ≡ verified ret (some slot_data) store'
      → (1 ≤ length slot_data.vbmeta_images)
        × (length slot_data.vbmeta_images ≤ 32)
        × (length slot_data.loaded_partitions ≤ 32)
  unfolding avb_slot_verify
  slot_verify_bounded heap store ret slot_data store' e =
      let (s, safe, finished, same) =
        handed_out _ ret slot_data store' (slot_steps-EndsWith heap store) e in
      let images = ap (λ (d : AvbSlotVerifyData). d.vbmeta_images) same in
      let partitions = ap (λ (d : AvbSlotVerifyData). d.loaded_partitions) same in
      (
        not_empty slot_data.vbmeta_images (λ none_left. finished.0 (images ∙ none_left)),
        omega (arith, ap length images, safe.images),
        omega (arith, ap length partitions, safe.partitions),
      )
    where
      not_empty : (vs : List AvbVbMetaData) → vs ≢ [] → 1 ≤ length vs
      not_empty [] h = absurd (h refl)
      not_empty (v ∷ vs) h = omega arith

  finishes :
      (o : Outcome Store AvbSlotVerifyResult)
      → EndsWith Safe Finished o
      → slot_result o ≢ unfinished
  finishes (done r s) h e = cc e
  finishes (left r s) h e = cc e
  finishes aborted h e = cc e
  finishes outside h e = cc e
  finishes out_of_fuel h e = h

  -- The slot verification ends, whatever the partitions hold: its recursion over chained images is
  -- at most three calls deep, and it never runs out of the fuel for that depth.
  pub slot_verify_ends :
      (heap : Heap) (store : Store)
      → avb_slot_verify crypto address ops names ab_suffix flags mode heap store ≢ unfinished
  unfolding avb_slot_verify
  slot_verify_ends heap store = finishes _ (slot_steps-EndsWith heap store)
