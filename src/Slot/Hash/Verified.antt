-- ===== src/Slot/Hash/Verified.antt =====
-- What an `OK` of `load_and_verify_hash_partition` means.
use android_boot_image_edito.Common.{
  if◌then◌else◌, ℕ, ◌≡◌, ◌≢◌, refl, Bool, true, false, Option, none, some, Bytes, IsBytes, List, [],
  ◌∷◌, ◌++◌, take, ◌||◌, ◌∙◌, subst, sym, ap, get_or,
}
use android_boot_image_edito.Memory.{ok, read}
use android_boot_image_edito.Heap.{Alloc}
use android_boot_image_edito.Util.Utf8.{avb_validate_utf8}
use android_boot_image_edito.Util.Text.{avb_strv_find_str}
use android_boot_image_edito.Crypto.{Primitives}
use android_boot_image_edito.Descriptor.{
  AvbHashDescriptor, avb_hash_descriptor_validate_and_byteswap,
}
use android_boot_image_edito.Ops.{
  io_ok, AvbOps, AvbSlotVerifyResult, result_ok, result_should_continue, is_ok,
}
use android_boot_image_edito.Slot.Exec.{
  AvbPartitionData, AvbSlotVerifyData, SlotState, done, pure, if_null, ◌>>=◌, set_slot_data,
  allocate, gets,
}
use android_boot_image_edito.Slot.Does.{
  Does-pure, Did, Does-if, Does, Same, Any, metadata_bad, Does-check, Does-bind, Does-lift,
  Does-or_leave, Does-function, Does-answer, Does-weaken,
}
use android_boot_image_edito.Slot.Plain.{plain_rules}
use android_boot_image_edito.Slot.Load.{size_of_partition, add_loaded, room_for_partition}
use android_boot_image_edito.Slot.Hash.{
  keep_image, verify_requested, load_and_verify_hash_partition,
}
use android_boot_image_edito.Slot.Hash.Loads.{
  LoadedFrom, LoadedFrom-length, IsPartName, Does-load_full_partition, Does-hash_part_name,
  Does-size_of_partition,
}
use android_boot_image_edito.Slot.Hash.Compared.{HasDigest, Does-check_digest}

-- One partition is added to the loaded ones. Its contents are the first bytes of the partition with
-- the name, as many as the descriptor says, or all of it when errors are allowed, and the part of
-- them that the descriptor covers has the digest.
pub record HashVerified {Store : Type 0} (crypto : Primitives) (ops : AvbOps Store)
    (ab_suffix : Bytes) (allow : Bool) (memory : Bytes) (hash_desc : AvbHashDescriptor)
    (name : Bytes) (d d' : AvbSlotVerifyData) : Type 0 where
  pub partition : AvbPartitionData
  pub added : d'.loaded_partitions ≡ d.loaded_partitions ++ (partition ∷ [])
  pub images : d'.vbmeta_images ≡ d.vbmeta_images
  pub part_name : Bytes
  pub named : IsPartName ab_suffix hash_desc name part_name
  pub as_described : allow ≡ false → partition.data_size ≡ hash_desc.image_size
  pub as_measured :
      allow ≡ true → ops.get_size_of_partition part_name ≡ (io_ok, partition.data_size)
  pub loaded :
      LoadedFrom ops part_name (partition.data_size) (partition.contents, partition.preloaded)
  pub hashed : HasDigest crypto memory hash_desc (take hash_desc.image_size partition.contents)

module _ {Store : Type 0} (crypto : Primitives) (ops : AvbOps Store) (names : List Bytes)
    (ab_suffix : Bytes) (allow : Bool) (memory : Bytes) (desc : AvbHashDescriptor) where
  Plain-gets : {A : Type 0} (f : SlotState Store → A) → Does (Same Any) (gets f)
  unfolding gets
  Plain-gets f = record { at = λ s. (tt, refl) }

  Plain-allocate : {A : Type 0} (m : Alloc A) → Does {Store = Store} (Same Any) (allocate m)
  unfolding allocate
  Plain-allocate m = record { at = λ s. (tt, refl) }

  Plain-room_for_partition : Does {Store = Store} (Same Any) room_for_partition
  unfolding room_for_partition
  Plain-room_for_partition = search (plain_rules, Plain-gets)

  Does-keep_image :
      (name part_name found : Bytes) (size : ℕ) (image_buf : Bytes) (preloaded : Bool)
      (ret : AvbSlotVerifyResult)
      → IsPartName ab_suffix desc name part_name
      → (allow ≡ false → size ≡ desc.image_size)
      → (allow ≡ true → ops.get_size_of_partition part_name ≡ (io_ok, size))
      → LoadedFrom ops part_name size (image_buf, preloaded)
      → (ret ≡ result_ok → HasDigest crypto memory desc (take desc.image_size image_buf))
      → Does
          (λ ret' d d'.
            ret' ≡ result_ok → HashVerified crypto ops ab_suffix allow memory desc name d d')
          (keep_image crypto ops names ab_suffix allow found size image_buf preloaded ret)
  unfolding keep_image set_slot_data pure ◌>>=◌
  Does-keep_image name part_name found size image_buf preloaded ret named exact measure whole
        hashed =
      Does-if (is_ok ret || result_should_continue ret) _ _
        (λ _. Does-bind Plain-room_for_partition (λ _ _.
          Does-bind (Plain-allocate _) (λ partition_name _.
            added
              (record {
                partition_name = partition_name;
                contents = image_buf;
                data_size = size;
                preloaded = preloaded;
              })
              refl refl refl)))
        (λ bad. unkept ret bad)
    where
      added :
          (partition : AvbPartitionData)
          → partition.contents ≡ image_buf
          → partition.data_size ≡ size
          → partition.preloaded ≡ preloaded
          → Does {Store = Store}
              (λ ret' d d'.
                ret' ≡ result_ok → HashVerified crypto ops ab_suffix allow memory desc name d d')
              (set_slot_data (add_loaded partition) >>= λ _. pure ret)
      added partition contents sized kept = record {
        at = λ s e. record {
          partition = partition;
          added = refl;
          images = refl;
          part_name = part_name;
          named = named;
          as_described = λ strict. sized ∙ exact strict;
          as_measured = λ lax. rw sized (measure lax);
          loaded = rw (contents, sized, kept) whole;
          hashed = rw contents (hashed e);
        };
      }

      unkept :
          (ret : AvbSlotVerifyResult)
          → (is_ok ret || result_should_continue ret) ≡ false
          → Does {Store = Store}
              (λ ret' d d'.
                ret' ≡ result_ok → HashVerified crypto ops ab_suffix allow memory desc name d d')
              (pure ret)
      unkept ret bad = record { at = λ s e. absurd (cc (rw e at bad)) }

  Does-image_size :
      (part_name : Bytes)
      → Does
          (Same (λ size.
            (allow ≡ false → size ≡ desc.image_size)
            × (allow ≡ true → ops.get_size_of_partition part_name ≡ (io_ok, size))))
          (if allow then size_of_partition ops part_name else pure desc.image_size)
  Does-image_size part_name =
      Does-if allow _ _
        (λ lax.
          Does-weaken (Does-size_of_partition ops part_name)
            (λ size d d' known. (((λ strict. absurd (cc (lax, strict))), λ _. known.0), known.1)))
        (λ strict. Does-pure desc.image_size ((λ _. refl), λ lax. absurd (cc (lax, strict))))

  Does-verify_requested :
      IsBytes memory
      → (name found : Bytes)
      → Does
          (λ ret d d'.
            ret ≡ result_ok → HashVerified crypto ops ab_suffix allow memory desc name d d')
          (verify_requested crypto ops names ab_suffix allow memory desc name found)
  unfolding verify_requested
  Does-verify_requested mb name found =
      Does-bind (Does-hash_part_name ab_suffix desc name) (λ part_name named.
        Does-bind (Does-image_size part_name) (λ size sized.
          Does-bind (Does-load_full_partition ops part_name size) (λ image whole.
            Does-bind
              (Does-function (
                Does-check_digest crypto ops names ab_suffix allow memory desc mb part_name size
                  image.0 (LoadedFrom-length whole)))
              (λ ret hashed.
                Does-keep_image name part_name found size image.0 image.1 ret named sized.0 sized.1
                  whole hashed))))

-- What an `OK` means: a name that was not requested, or a verified image.
pub data HashOk {Store : Type 0} (crypto : Primitives) (ops : AvbOps Store) (names : List Bytes)
    (ab_suffix : Bytes) (allow : Bool) (memory : Bytes) (hash_desc : AvbHashDescriptor)
    (name : Bytes) (d d' : AvbSlotVerifyData) : Type 0 where
  not_requested :
      avb_strv_find_str names name ≡ none
      → d' ≡ d
      → HashOk crypto ops names ab_suffix allow memory hash_desc name d d'
  requested :
      avb_strv_find_str names name ≢ none
      → HashVerified crypto ops ab_suffix allow memory hash_desc name d d'
      → HashOk crypto ops names ab_suffix allow memory hash_desc name d d'

Does-lookup :
    {Store : Type 0} (crypto : Primitives) (ops : AvbOps Store) (names : List Bytes)
    (ab_suffix : Bytes) (allow : Bool) (memory : Bytes) (desc : AvbHashDescriptor) (name : Bytes)
    → IsBytes memory
    → (found : Option ℕ) → avb_strv_find_str names name ≡ found
    → Does
        (λ ret d d'.
          ret ≡ result_ok → HashOk crypto ops names ab_suffix allow memory desc name d d')
        (if_null found (pure result_ok) (λ n.
          verify_requested crypto ops names ab_suffix allow memory desc name (get_or names n [])))
unfolding pure
Does-lookup crypto ops names ab_suffix allow memory desc name mb none e = record {
  at = λ s _. not_requested e refl;
}
Does-lookup crypto ops names ab_suffix allow memory desc name mb (some n) e =
    Does-weaken
      (Does-verify_requested crypto ops names ab_suffix allow memory desc mb name
        (get_or names n []))
      (λ ret d d' verified ok_ret. requested (λ missing. cc (sym e ∙ missing)) (verified ok_ret))

-- An `OK` of `load_and_verify_hash_partition` means that the descriptor is valid and the name
-- behind it is UTF-8. When the name is not among the requested ones, the slot data is as it was.
-- When it is, one partition is added to the loaded ones and the vbmeta images are as they were. Its
-- contents are the first bytes, as many as its size says, that the operations gave for the
-- partition with the name, with the suffix unless the flag of the descriptor says otherwise; the
-- size is that of the descriptor, or that of the partition when errors are allowed. The SHA-256 or
-- SHA-512, as the descriptor names it, of the salt and the contents up to the descriptor's size is
-- the digest in the descriptor when that one has a length other than 0. The memory is bytes.
pub hash_partition-HashOk :
    {Store : Type 0} (crypto : Primitives) (ops : AvbOps Store) (names : List Bytes)
    (ab_suffix : Bytes) (allow : Bool) (memory : Bytes) (s s' : SlotState Store)
    → IsBytes memory
    → load_and_verify_hash_partition crypto ops names ab_suffix allow memory s ≡ done result_ok s'
    → (desc : AvbHashDescriptor) × (name : Bytes) × (avb_hash_descriptor_validate_and_byteswap
          memory
        ≡ ok (some desc))
      × (read memory 132 desc.partition_name_len ≡ ok name)
      × (avb_validate_utf8 name ≡ true)
      × HashOk crypto ops names ab_suffix allow memory desc name (s.slot_data) (s'.slot_data)
unfolding load_and_verify_hash_partition
hash_partition-HashOk {Store} crypto ops names ab_suffix allow memory s s' mb e =
    subst (Did R (s.slot_data)) e (body.at s) refl
  where
    R : AvbSlotVerifyResult → AvbSlotVerifyData → AvbSlotVerifyData → Type 0
    R ret d d' =
        ret ≡ result_ok
        → (desc : AvbHashDescriptor) × (name : Bytes) × (avb_hash_descriptor_validate_and_byteswap
              memory
            ≡ ok (some desc))
          × (read memory 132 desc.partition_name_len ≡ ok name)
          × (avb_validate_utf8 name ≡ true)
          × HashOk crypto ops names ab_suffix allow memory desc name d d'

    body :
        Does {Store = Store} R
          (load_and_verify_hash_partition crypto ops names ab_suffix allow memory)
    body = Does-answer (
        Does-bind (Does-lift _) (λ o valid.
          Does-bind (Does-or_leave o _ metadata_bad) (λ desc known.
            Does-bind (Does-lift _) (λ name named.
              Does-bind (Does-check _ _ metadata_bad) (λ _ utf8.
                Does-weaken
                  (Does-lookup crypto ops names ab_suffix allow memory desc name mb _ refl)
                  (λ ret d d' looked ok_ret.
                    (desc, name, valid ∙ ap ok known, named, utf8, looked ok_ret)))))))
