-- ===== src/Slot/Accepts.antt =====
-- What the checks of `load_and_verify_vbmeta` establish on the way to the record of an image.
use android_boot_image_edito.Common.{
  ℕ, ◌+◌, ◌≡◌, ◌⊎◌, inl, inr, refl, sym, ◌∙◌, ap, subst, arith, Bool, true, false, not, ◌||◌, ◌==◌,
  ltb, if◌then◌else◌, Option, none, some, bit_and, Bytes, IsBytes, IsBytes-take, List, [], ◌∷◌,
  ◌++◌, length, length-append, IsBytes-drop, take, drop, All, Bool-cases,
}
use android_boot_image_edito.Memory.{Run, ok, fault, slice}
use android_boot_image_edito.Util.Strings.{avb_strdup}
use android_boot_image_edito.Crypto.{Primitives}
use android_boot_image_edito.Vbmeta.Header.{AvbVbMetaImageHeader}
use android_boot_image_edito.Vbmeta.Verify.{AvbVbMetaVerifyResult}
use android_boot_image_edito.Ops.{AvbSlotVerifyResult, result_error_oom, AvbOps}
use android_boot_image_edito.Slot.Exec.{
  AvbVbMetaData, SlotState, ◌>>=◌, ◌>>◌, check, avb_assert, allocate, gets, set_slot_data, lift,
}
use android_boot_image_edito.Slot.Rules.{
  Ends, Yields, Anything, Yields-pure, Yields-if_null, Yields-lift, Yields-bind, Yields-weaken,
}
use android_boot_image_edito.Slot.Load.{is_some, string_at}
use android_boot_image_edito.Slot.Entries.{VbMetaCall}
use android_boot_image_edito.Slot.Checks.{anchored_key, is_main, check_key, add_image, record_image}
use android_boot_image_edito.Slot.Counts.{Sound}
use android_boot_image_edito.Slot.Trust.{KeyTrusted}
use android_boot_image_edito.Vbmeta.Verify.Authentic.{header_of}
use android_boot_image_edito.Slot.Keys.{read-slice, Yields-anchored_key, Yields-chained_key}

-- What the check of the key finds: the boot loader trusts the key, or it is the expected one.
abbrev pub KeyFor :
    Primitives
    → (Bytes → ℕ)
    → {Store : Type 0} → AvbOps Store
    → VbMetaCall
    → Bytes
    → Bytes
    → Bytes
    → ℕ
    → Type 0
KeyFor crypto address ops call name image key location =
    ((call.expected_public_key ≡ none) × KeyTrusted crypto address ops name image key location)
    ⊎ ((expected : Bytes) × (call.expected_public_key ≡ some expected)
        × (location ≡ call.rollback_index_location)
        × (key ≡ take call.expected_public_key_length expected))

module _ {Store : Type 0} {I : SlotState Store → Type 0} (crypto : Primitives) (address : Bytes → ℕ)
    (ops : AvbOps Store) (flags : ℕ) where
  pub Yields-check_key :
      (allow : Bool) (call : VbMetaCall) (name image : Bytes) (header : AvbVbMetaImageHeader)
      (public_key : Option (ℕ × ℕ)) (ret : AvbSlotVerifyResult)
      → header ≡ header_of image
      → IsBytes image
      → ((expected : Bytes) → call.expected_public_key ≡ some expected → IsBytes expected)
      → (allow ≡ false → is_some public_key ≡ true)
      → Yields I
          (λ r.
            allow ≡ false
            → (p : ℕ × ℕ) × (public_key ≡ some p)
              × KeyFor crypto address ops call name image (slice image p.0 p.1) r.1)
          (check_key ops flags allow call name image header public_key ret)
  unfolding check_key
  Yields-check_key allow call name image header none ret h b be present =
      Yields-pure _ (λ a. absurd (cc (present a)))
  Yields-check_key allow call name image header (some (o, n)) ret h b be present =
      Yields-bind (Yields-lift _) (λ key e.
        let (same, whole) = read-slice image o n e in
        Yields-if_null call.expected_public_key _ _
          (λ nothing.
            Yields-weaken
              (subst
                (λ hd.
                  Yields I (λ r. allow ≡ false → KeyTrusted crypto address ops name image key r.1)
                    (anchored_key ops flags allow call name image hd key ret))
                (sym h)
                (Yields-anchored_key ops flags crypto address allow call name image key ret))
              (λ r f a. (
                (o, n),
                refl,
                inl (
                  nothing,
                  subst (λ k. KeyTrusted crypto address ops name image k (r.1)) same (f a),
                ),
              )))
          (λ expected given.
            Yields-weaken
              (Yields-chained_key ops flags allow call expected key n ret (be expected given)
                (subst IsBytes (sym same) (IsBytes-take n (drop o image) (IsBytes-drop o image b))))
              (λ r f a.
                let (here, len, agree) = f a in
                (
                  (o, n),
                  refl,
                  inr (
                    expected,
                    given,
                    here,
                    sym same ∙ sym whole ∙ sym agree ∙ ap (λ (k : ℕ). take k expected) (sym len),
                  ),
                ))))

-- The image that is recorded.
abbrev pub recorded_image :
    Option Bytes → Bytes → AvbVbMetaImageHeader → AvbVbMetaVerifyResult → AvbVbMetaData
recorded_image partition_name image header verify_result = record {
  partition_name = partition_name;
  vbmeta_data = image;
  vbmeta_size = 256 + header.authentication_data_block_size + header.auxiliary_data_block_size;
  verify_result = verify_result;
}

All-append :
    (P : AvbVbMetaData → Type 0) (xs : List AvbVbMetaData) (x : AvbVbMetaData)
    → All P xs
    → P x
    → All P (xs ++ (x ∷ []))
All-append P [] x h p = (p, tt)
All-append P (y ∷ ys) x h p = (h.0, All-append P ys x h.1 p)

module _ {Store : Type 0} {Good : AvbVbMetaData → Type 0} where
  Sound-add_image :
      (s s' : SlotState Store) (v : AvbVbMetaData)
      → Sound Good s
      → Good v
      → (length s.slot_data.vbmeta_images == 32) ≡ false
      → s'.slot_data.vbmeta_images ≡ s.slot_data.vbmeta_images ++ (v ∷ [])
      → s'.slot_data.loaded_partitions ≡ s.slot_data.loaded_partitions
      → Sound Good s'
  Sound-add_image s s' v h g room e f = record {
    good = subst (All Good) (sym e) (All-append Good s.slot_data.vbmeta_images v h.good g);
    images =
        ground (arith, ap length e, h.images, length-append s.slot_data.vbmeta_images (v ∷ []));
    partitions = omega (arith, ap length f, h.partitions);
  }

  pub Yields-record_image :
      (flags : ℕ) (call : VbMetaCall) (image : Bytes) (header : AvbVbMetaImageHeader)
      (verify_result : AvbVbMetaVerifyResult)
      → ((name : Option Bytes) → Good (recorded_image name image header verify_result))
      → Yields {Store = Store}
          (Sound Good)
          Anything
          (record_image flags call image header verify_result)
  unfolding record_image ◌>>=◌ gets avb_assert check lift allocate set_slot_data
  Yields-record_image flags call image header verify_result g = record {
    at = λ s h.
        recorded_lem s h
          (if is_main flags call.rollback_index_location
            then length s.slot_data.vbmeta_images == 0
            else not (bit_and flags 4 == 0) || ltb 0 (length s.slot_data.vbmeta_images))
          (string_at call.partition_name);
  }
    where
      recorded_lem :
          (s : SlotState Store)
          → Sound Good s
          → (b : Bool) (r : Run Bytes)
          → Ends
              (Sound Good)
              (λ (u : Unit {0}). Unit {0})
              ((avb_assert {Store = Store} b
                  >> (check (not (length s.slot_data.vbmeta_images == 32)) result_error_oom
                      >> (lift r >>= λ name. allocate (avb_strdup name) >>= λ copy.
                          set_slot_data
                            (add_image (recorded_image copy image header verify_result)))))
                s)
      recorded_lem s h false r = tt
      recorded_lem s h true fault = elim (Bool-cases (length s.slot_data.vbmeta_images == 32)) [
        | inl full ↦ rw full h
        | inr room ↦ rw room tt
      ]
      recorded_lem s h true (ok name) = elim (Bool-cases (length s.slot_data.vbmeta_images == 32)) [
        | inl full ↦ rw full h
        | inr room ↦ rw room (
            let copied = avb_strdup name (s.heap) in
            let v = recorded_image copied.0 image header verify_result in
            let s' : SlotState Store = record s {
              heap = copied.1;
              slot_data = add_image v s.slot_data;
            } in
            (Sound-add_image s s' v h (g copied.0) room refl refl, tt))
      ]
