-- ===== src/Slot/Counts.antt =====
-- The arrays of images and partitions, and what is added to them.
use android_boot_image_edito.Common.{
  ℕ, ◌≤◌, ◌≡◌, refl, sym, ap, subst, arith, Bool, false, ◌==◌, Option, Bytes, List, [], ◌∷◌, ◌++◌,
  length, length-append, All, Bool-cases, inl, inr,
}
use android_boot_image_edito.Util.Strings.{avb_strdup}
use android_boot_image_edito.Crypto.{Primitives}
use android_boot_image_edito.Descriptor.{AvbHashDescriptor}
use android_boot_image_edito.Ops.{AvbSlotVerifyResult, AvbOps}
use android_boot_image_edito.Slot.Exec.{
  AvbPartitionData, AvbVbMetaData, SlotState, Exec, allocate, gets, ◌>>=◌, ◌>>◌, check,
  set_slot_data,
}
use android_boot_image_edito.Slot.Rules.{
  Yields, Anything, Keeps-pure, Keeps-bind, Keeps-if, keeps_rules, Yields-function,
}
use android_boot_image_edito.Slot.Recorded.{
  Frame, Yields-with_suffix, Yields-size_of_partition, Yields-load_full_partition,
  Yields-read_persistent_digest,
}
use android_boot_image_edito.Slot.Load.{
  add_loaded, room_for_partition, load_requested_partition, load_requested_partitions,
}
use android_boot_image_edito.Slot.Hash.{
  hash_part_name, wanted_digest, check_digest, keep_image, verify_requested,
  load_and_verify_hash_partition,
}

-- All recorded images are good, and the arrays are not full beyond their size.
pub record Sound {Store : Type 0} (Good : AvbVbMetaData → Type 0) (s : SlotState Store)
    : Type 0 where
  pub good : All Good (s.slot_data.vbmeta_images)
  pub images : length s.slot_data.vbmeta_images ≤ 32
  pub partitions : length s.slot_data.loaded_partitions ≤ 32

module _ {Store : Type 0} {Good : AvbVbMetaData → Type 0} where
  pub Sound-Frame : Frame {Store = Store} (Sound Good)
  Sound-Frame = record {
    keeps = λ s s' p q h. record {
      good = subst (All Good) (sym p) h.good;
      images = omega (arith, ap length p, h.images);
      partitions = omega (arith, ap length q, h.partitions);
    };
  }

  -- With room, one more partition fits.
  Sound-add_loaded :
      (s s' : SlotState Store) (p : AvbPartitionData)
      → Sound Good s
      → (length s.slot_data.loaded_partitions == 32) ≡ false
      → s'.slot_data.vbmeta_images ≡ s.slot_data.vbmeta_images
      → s'.slot_data.loaded_partitions ≡ s.slot_data.loaded_partitions ++ (p ∷ [])
      → Sound Good s'
  Sound-add_loaded s s' p h room e f = record {
    good = subst (All Good) (sym e) h.good;
    images = omega (arith, ap length e, h.images);
    partitions =
        ground
          (arith, ap length f, h.partitions, length-append s.slot_data.loaded_partitions (p ∷ []));
  }

  -- The end of `load_requested_partition` and of `load_and_verify_hash_partition`.
  pub Yields-add_loaded :
      {A : Type 0} (name : Bytes) (partition : Option Bytes → AvbPartitionData)
      (rest : Option Bytes → Exec Store A)
      → ((copy : Option Bytes) → Yields (Sound Good) Anything (rest copy))
      → Yields (Sound Good) Anything (
          room_for_partition
          >> (allocate (avb_strdup name) >>= λ copy.
              set_slot_data (add_loaded (partition copy)) >> rest copy))
  unfolding room_for_partition ◌>>=◌ allocate set_slot_data check gets
  Yields-add_loaded name partition rest k = record {
    at = λ s h. elim (Bool-cases (length s.slot_data.loaded_partitions == 32)) [
      | inl full ↦ rw full h
      | inr room ↦ rw room (
          let copied = avb_strdup name (s.heap) in
          let s' : SlotState Store = record s {
            heap = copied.1;
            slot_data = add_loaded (partition copied.0) s.slot_data;
          } in
          (k copied.0).at s' (Sound-add_loaded s s' (partition copied.0) h room refl refl))
    ];
  }

  Yields-load_requested_partition :
      (ops : AvbOps Store) (ab_suffix requested : Bytes)
      → Yields (Sound Good) Anything (load_requested_partition ops ab_suffix requested)
  unfolding load_requested_partition
  Yields-load_requested_partition ops ab_suffix requested =
      Keeps-bind _ _ (Yields-with_suffix Sound-Frame requested ab_suffix) (λ part_name.
        Keeps-bind _ _ (Yields-size_of_partition Sound-Frame ops part_name) (λ size.
          Keeps-bind _ _ (Yields-load_full_partition Sound-Frame ops part_name size)
            (λ image. Yields-add_loaded requested _ _ (λ copy. search keeps_rules))))

  pub Yields-load_requested_partitions :
      (ops : AvbOps Store) (ab_suffix : Bytes) (names : List Bytes)
      → Yields (Sound Good) Anything (load_requested_partitions ops ab_suffix names)
  unfolding load_requested_partitions
  Yields-load_requested_partitions ops ab_suffix [] = Keeps-pure _
  Yields-load_requested_partitions ops ab_suffix (name ∷ names) =
      Keeps-bind _ _ (Yields-load_requested_partition ops ab_suffix name)
        (λ _. Yields-load_requested_partitions ops ab_suffix names)

module _ {Store : Type 0} {I : SlotState Store → Type 0} (frame : Frame I) where
  Yields-hash_part_name :
      (ab_suffix : Bytes) (desc : AvbHashDescriptor) (name : Bytes)
      → Yields I Anything (hash_part_name {Store = Store} ab_suffix desc name)
  unfolding hash_part_name
  Yields-hash_part_name ab_suffix desc name = search (keeps_rules, Yields-with_suffix) depth 9

  Yields-wanted_digest :
      (crypto : Primitives) (ops : AvbOps Store) (names : List Bytes) (ab_suffix : Bytes)
      (allow : Bool) (memory : Bytes) (desc : AvbHashDescriptor) (part_name digest : Bytes)
      → Yields I Anything
          (wanted_digest crypto ops names ab_suffix allow memory desc part_name digest)
  unfolding wanted_digest
  Yields-wanted_digest crypto ops names ab_suffix allow memory desc part_name digest =
      search (keeps_rules, Yields-read_persistent_digest) depth 9

  Yields-check_digest :
      (crypto : Primitives) (ops : AvbOps Store) (names : List Bytes) (ab_suffix : Bytes)
      (allow : Bool) (memory : Bytes) (desc : AvbHashDescriptor) (part_name : Bytes) (size : ℕ)
      (image : Bytes)
      → Yields I Anything
          (check_digest crypto ops names ab_suffix allow memory desc part_name size image)
  unfolding check_digest
  Yields-check_digest crypto ops names ab_suffix allow memory desc part_name size image =
      search (keeps_rules, Yields-wanted_digest) depth 12

module _ {Store : Type 0} {Good : AvbVbMetaData → Type 0} (crypto : Primitives) (ops : AvbOps Store)
    (names : List Bytes) (ab_suffix : Bytes) (allow : Bool) where
  Yields-keep_image :
      (found : Bytes) (size : ℕ) (image : Bytes) (preloaded : Bool) (ret : AvbSlotVerifyResult)
      → Yields
          (Sound Good)
          Anything
          (keep_image crypto ops names ab_suffix allow found size image preloaded ret)
  unfolding keep_image
  Yields-keep_image found size image preloaded ret =
      Keeps-if _ _ _ (Yields-add_loaded found _ _ (λ copy. Keeps-pure ret)) (Keeps-pure ret)

  Yields-verify_requested :
      (memory : Bytes) (desc : AvbHashDescriptor) (name found : Bytes)
      → Yields
          (Sound Good)
          Anything
          (verify_requested crypto ops names ab_suffix allow memory desc name found)
  unfolding verify_requested
  Yields-verify_requested memory desc name found =
      let frame = Sound-Frame {Store = Store} {Good = Good} in
      Keeps-bind _ _ (Yields-hash_part_name frame ab_suffix desc name) (λ part_name.
        Keeps-bind _ _
          (Keeps-if allow _ _ (Yields-size_of_partition frame ops part_name) (Keeps-pure _))
          (λ size. Keeps-bind _ _ (Yields-load_full_partition frame ops part_name size) (λ image.
            Keeps-bind _ _
              (Yields-function (
                Yields-check_digest frame crypto ops names ab_suffix allow memory desc part_name
                  size image.0))
              (λ ret. Yields-keep_image found size image.0 image.1 ret))))

  pub Yields-load_and_verify_hash_partition :
      (memory : Bytes)
      → Yields
          (Sound Good)
          Anything
          (load_and_verify_hash_partition crypto ops names ab_suffix allow memory)
  unfolding load_and_verify_hash_partition
  Yields-load_and_verify_hash_partition memory =
      search (keeps_rules, Yields-verify_requested) depth 12
