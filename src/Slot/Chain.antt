-- ===== src/Slot/Chain.antt =====
-- From the verification of an image on, `load_and_verify_vbmeta` records trusted images only.
use android_boot_image_edito.Common.{
  ℕ, ◌+◌, ◌≤◌, ◌<◌, ◌^◌, ◌≡◌, ◌⊎◌, inl, inr, refl, sym, ◌∙◌, ap, subst, arith, Bool, true, false,
  not, ◌==◌, Option, none, some, Bytes, IsBytes, IsBytes-drop, List, length, take, drop, All, zero,
  suc, [], ◌∷◌,
}
use android_boot_image_edito.Memory.{ok, slice}
use android_boot_image_edito.Crypto.{Primitives}
use android_boot_image_edito.Vbmeta.Header.{
  AvbVbMetaImageHeader, avb_vbmeta_image_header_to_host_byte_order,
}
use android_boot_image_edito.Vbmeta.Verify.{result_ok, Verdict, avb_vbmeta_image_verify}
use android_boot_image_edito.Vbmeta.Verify.Authentic.{header_of, verify_exact}
use android_boot_image_edito.Vbmeta.Verify.Key.{verify-KeyOf}
use android_boot_image_edito.Descriptor.{AvbChainPartitionDescriptor}
use android_boot_image_edito.Ops.{io_ok, AvbSlotVerifyResult, AvbOps}
use android_boot_image_edito.Slot.Exec.{if_null, undefined, pure, AvbVbMetaData, SlotState, Exec}
use android_boot_image_edito.Slot.Rules.{
  Ends, Yields-pure, Yields, Anything, Yields-bind, Yields-lift, Yields-check, Yields-undefined,
  Keeps-bind, Keeps-pure, Keeps-if, Keeps-check, Yields-function,
}
use android_boot_image_edito.Slot.Recorded.{Frame, Yields-modify, Yields-set_slot_data}
use android_boot_image_edito.Slot.Load.{is_some}
use android_boot_image_edito.Slot.Entries.{VbMetaCall, chain_call}
use android_boot_image_edito.Slot.Image.{
  got_all, descriptors_of, note_image, load_unverified, process_entries, accept_image, verify_image,
}
use android_boot_image_edito.Slot.Checks.{is_main}
use android_boot_image_edito.Slot.Counts.{Sound, Sound-Frame, Yields-load_requested_partitions}
use android_boot_image_edito.Descriptor.Foreach.{
  AllDescriptors, all_got, all_outside, all_aborted, all_out_of_fuel, avb_descriptor_get_all,
}
use android_boot_image_edito.Descriptor.Foreach.Safe.{Placed, Found, get_all-Found}
use android_boot_image_edito.Slot.Trust.{Vouched, Trusted, anchored, chained, Names}
use android_boot_image_edito.Slot.Accepts.{
  Yields-check_key, Yields-record_image, KeyFor, recorded_image,
}
use android_boot_image_edito.Slot.Keys.{read-slice, Yields-after_verify, Yields-check_rollback}
use android_boot_image_edito.Slot.Walk.{ChainsKeep, Yields-entries}

-- The end of the function changes neither images nor partitions.
Yields-note_image :
    {Store : Type 0} {I : SlotState Store → Type 0} (frame : Frame I) (call : VbMetaCall)
    (header : AvbVbMetaImageHeader)
    → Yields I Anything (note_image call header)
unfolding note_image
Yields-note_image frame call header =
    Keeps-bind _ _
      (Keeps-bind _ _ (Keeps-check _ _) (λ _. Yields-set_slot_data frame _ (λ d. refl) (λ d. refl)))
      (λ _. Yields-modify frame _ (λ s. ground arith) (λ s. ground arith))

-- The array holds descriptors in the region.
abbrev HasPlaced : ℕ → Bytes → Option (List (Option ℕ) × ℕ) → Type 0
HasPlaced base image none = Unit
HasPlaced base image (some (array, n)) = All (Placed base image) array

Yields-descriptors_of :
    {Store : Type 0} {I : SlotState Store → Type 0} (frame : Frame I) (base : ℕ) (image : Bytes)
    → base < 2 ^ 64
    → length image < 2 ^ 64
    → Yields I (HasPlaced base image) (descriptors_of base image)
unfolding descriptors_of
Yields-descriptors_of {Store} {I} frame base image a b = record {
  at = λ s h.
      got s h (avb_descriptor_get_all base image (length image) s.heap)
        (get_all-Found base image s.heap a b);
}
  where
    got :
        (s : SlotState Store)
        → I s
        → (all : AllDescriptors) → Found base image all
        → Ends I (HasPlaced base image) (got_all s all)
    got s h (all_got none heap') found = (frame.keeps s (record s { heap = heap' }) refl refl h, tt)
    got s h (all_got (some (array, n)) heap') found =
        (frame.keeps s (record s { heap = heap' }) refl refl h, found)
    got s h all_outside found = tt
    got s h all_aborted found = tt
    got s h all_out_of_fuel found = found

Yields-array :
    {Store : Type 0} {I : SlotState Store → Type 0} (base : ℕ) (image : Bytes)
    (all : Option (List (Option ℕ) × ℕ))
    → HasPlaced base image all
    → Yields I
        (λ array. All (Placed base image) (array.0))
        (if_null all (undefined {Store = Store}) pure)
Yields-array base image none h = Yields-undefined
Yields-array base image (some array) h = Yields-pure array h

All-take : (P : Option ℕ → Type 0) (n : ℕ) (xs : List (Option ℕ)) → All P xs → All P (take n xs)
All-take P zero xs h = tt
All-take P (suc n) [] h = tt
All-take P (suc n) (x ∷ xs) h = (h.0, All-take P n xs h.1)

module _ (crypto : Primitives) (address : Bytes → ℕ) {Store : Type 0} (ops : AvbOps Store)
    (names : List Bytes) (ab_suffix : Bytes) (flags : ℕ) (allow : Bool)
    (in_space : (name : Bytes) → address name < 2 ^ 64)
    (reads : (name : Bytes) (o n : ℕ) → IsBytes (ops.read_from_partition name o n).1) where
  -- An image of a partition is trusted, unless errors are allowed.
  abbrev pub GoodAs : Bytes → AvbVbMetaData → Type 0
  GoodAs name v = allow ≡ false → Trusted crypto address ops name v

  abbrev pub Good : AvbVbMetaData → Type 0
  Good v = allow ≡ false → (name : Bytes) × Trusted crypto address ops name v

  -- The expected key of a call is that of a chain partition descriptor of a good image.
  pub record ChainOf (call : VbMetaCall) : Type 0 where
    pub parent_name : Bytes
    pub parent : AvbVbMetaData
    pub o : ℕ
    pub desc : AvbChainPartitionDescriptor
    pub good : GoodAs parent_name parent
    pub bytes : IsBytes parent.vbmeta_data
    pub call_lem :
        (key : Bytes)
        → key
          ≡ take desc.public_key_len
              (drop (92 + desc.partition_name_len) (drop o parent.vbmeta_data))
        → Names crypto address ops
            (address parent_name)
            parent.vbmeta_data
            o
            key
            call.rollback_index_location
    pub expected :
        call.expected_public_key
        ≡ some (drop (92 + desc.partition_name_len) (drop o parent.vbmeta_data))
    pub len : call.expected_public_key_length ≡ desc.public_key_len

  abbrev pub CallSound : VbMetaCall → Type 0
  CallSound call = (call.expected_public_key ≡ none) ⊎ ChainOf call

  some_eq : {a b : Bytes} → some a ≡ some b → a ≡ b
  some_eq e = cc e

  pair_eq : {a b : ℕ × ℕ} → some a ≡ some b → a ≡ b
  pair_eq e = cc e

  expected-IsBytes :
      (call : VbMetaCall)
      → CallSound call
      → (expected : Bytes) → call.expected_public_key ≡ some expected
      → IsBytes expected
  expected-IsBytes call (inl nothing) expected e = absurd (cc (sym nothing ∙ e))
  expected-IsBytes call (inr c) expected e =
      subst IsBytes (some_eq (sym c.expected ∙ e))
        (IsBytes-drop (92 + c.desc.partition_name_len) _ (IsBytes-drop c.o _ c.bytes))

  Trusted-by_key :
      (call : VbMetaCall) (name : Bytes) (image : AvbVbMetaData) (key : Bytes) (location : ℕ)
      → allow ≡ false
      → CallSound call
      → Vouched crypto address ops name image key location
      → KeyFor crypto address ops call name image.vbmeta_data key location
      → Trusted crypto address ops name image
  Trusted-by_key call name image key location a sound v (inl (nothing, t)) = anchored v t
  Trusted-by_key call name image key location a (inl nothing) v (inr (expected, e, here, same)) =
      absurd (cc (sym nothing ∙ e))
  Trusted-by_key call name image key location a (inr c) v (inr (expected, e, here, same)) =
      chained v (c.good a) (
        subst (Names crypto address ops (address c.parent_name) c.parent.vbmeta_data c.o key)
          (sym here) (c.call_lem key (same ∙ rw (c.len, some_eq (sym e ∙ c.expected)) refl)))

  module _ (call : VbMetaCall) (sound : CallSound call) (full_name image : Bytes)
      (bytes : IsBytes image) (short : length image ≤ 65536)
      (came : (place : ℕ) × (size : ℕ) × (ops.read_from_partition full_name place size
          ≡ (io_ok, image))) where
    vouch :
        (verdict : Verdict) (header : AvbVbMetaImageHeader) (p : ℕ × ℕ) (location stored : ℕ)
        (partition_name : Option Bytes)
        → avb_vbmeta_image_verify crypto (address full_name) image (length image) ≡ ok verdict
        → verdict.result ≡ result_ok
        → header ≡ header_of image
        → verdict.public_key ≡ some p
        → ops.read_rollback_index location ≡ (io_ok, stored)
        → stored ≤ header.rollback_index
        → Vouched crypto address ops full_name
            (recorded_image partition_name image header verdict.result)
            (slice image p.0 p.1)
            location
    vouch verdict header p location stored partition_name e good h key r fresh =
        let (v, e', iff) =
          verify_exact crypto (address full_name) image (length image) bytes (in_space full_name)
            (omega arith) (omega arith) in
        let same : v ≡ verdict = ground (arith, e, e') in
        record {
          place = came.0;
          size = came.1;
          loaded = came.2;
          authentic = iff.0 (ap (λ (w : Verdict). w.result) same ∙ good);
          verified = good;
          embedded = elim (verify-KeyOf crypto (address full_name) image (length image) verdict e) [
            | inl nothing ↦ absurd (cc (sym nothing ∙ key))
            | inr (_, place, _) ↦
                ap (λ (w : ℕ × ℕ). slice image w.0 w.1) (pair_eq (sym key ∙ place))
          ];
          stored = stored;
          read = r;
          fresh = omega (arith, fresh, ap (λ (w : AvbVbMetaImageHeader). w.rollback_index) h);
        }

    module _ (chain : VbMetaCall → Exec Store AvbSlotVerifyResult)
        (chain_ok : is_main flags call.rollback_index_location ≡ true
          → (call' : VbMetaCall) → CallSound call'
          → not (call'.rollback_index_location == 0) ≡ true
          → Yields (Sound Good) Anything (chain call')) where
      -- A chain partition descriptor of a good image makes a sound call.
      chains_keep :
          (v : AvbVbMetaData) (toplevel_flags : ℕ)
          → GoodAs full_name v
          → v.vbmeta_data ≡ image
          → ChainsKeep
              (Sound Good)
              chain
              (is_main flags call.rollback_index_location)
              toplevel_flags
              (address full_name)
              image
      chains_keep v toplevel_flags good same o desc main placed valid nonzero =
          let place : drop o image ≡ drop o v.vbmeta_data =
            ap (λ (w : Bytes). drop o w) (sym same) in
          chain_ok main (chain_call toplevel_flags (drop o image) desc)
            (inr (record {
              parent_name = full_name;
              parent = v;
              o = o;
              desc = desc;
              good = good;
              bytes = subst IsBytes (sym same) bytes;
              call_lem = λ key e. record {
                placed = rw same placed;
                desc = desc;
                valid = rw (sym place) valid;
                key_lem = e;
                location_lem = refl;
              };
              expected = ap (λ (w : Bytes). some (drop (92 + desc.partition_name_len) w)) place;
              len = refl;
            }))
            nonzero

      Yields-process_entries :
          (v : AvbVbMetaData) (toplevel_flags : ℕ) (header : AvbVbMetaImageHeader)
          (ret : AvbSlotVerifyResult)
          → GoodAs full_name v
          → v.vbmeta_data ≡ image
          → Yields (Sound Good) Anything (
              process_entries crypto address ops names ab_suffix flags allow chain call
                toplevel_flags full_name image header ret)
      unfolding process_entries
      Yields-process_entries v toplevel_flags header ret good same =
          let frame = Sound-Frame {Store = Store} {Good = Good} in
          Yields-bind
            (Yields-descriptors_of frame (address full_name) image (in_space full_name)
              (omega arith))
            (λ all placed.
              Yields-bind (Yields-array (address full_name) image all placed) (λ array places.
                Keeps-bind _ _
                  (Yields-entries crypto ops names ab_suffix allow chain _ toplevel_flags
                    call.has_outputs (address full_name) image
                    (chains_keep v toplevel_flags good same) _ ret
                    (All-take _ (array.1) (array.0) places))
                  (λ ret'.
                    Keeps-bind _ _ (Yields-note_image frame call header) (λ _. Keeps-pure ret'))))

      Yields-load_unverified :
          (ret : AvbSlotVerifyResult)
          → Yields
              (Sound Good)
              Anything
              (load_unverified crypto address ops names ab_suffix flags allow ret)
      unfolding load_unverified
      Yields-load_unverified ret =
          Keeps-bind _ _ (Yields-function (Yields-load_requested_partitions ops ab_suffix names))
            (λ sub_ret. Keeps-pure _)

      Yields-accept_image :
          (header : AvbVbMetaImageHeader) (verdict : Verdict) (ret : AvbSlotVerifyResult)
          → header ≡ header_of image
          → avb_vbmeta_image_verify crypto (address full_name) image (length image) ≡ ok verdict
          → (allow ≡ false → (verdict.result ≡ result_ok) × (is_some verdict.public_key ≡ true))
          → Yields (Sound Good) Anything (
              accept_image crypto address ops names ab_suffix flags allow chain call full_name image
                header verdict ret)
      unfolding accept_image
      Yields-accept_image header verdict ret h e checked = Yields-bind (Yields-check _ _) (λ _ _.
          Yields-bind
            (Yields-check_key crypto address ops flags allow call full_name image header
              verdict.public_key ret h bytes (expected-IsBytes call sound) (λ a. (checked a).1))
            (λ key judged.
              Yields-bind (Yields-check_rollback ops flags allow header (key.1) (key.0))
                (λ ret' fresh.
                  let good : (name : Option Bytes)
                      → GoodAs full_name (recorded_image name image header verdict.result) =
                    λ name a.
                      let (p, place, keyed) = judged a in
                      let (stored, r, le) = fresh a in
                      Trusted-by_key call full_name _ (slice image p.0 p.1) (key.1) a sound
                        (vouch verdict header p (key.1) stored name e ((checked a).0) h place r le)
                        keyed in
                  Keeps-bind _ _
                    (Yields-record_image flags call image header verdict.result
                      (λ name a. (full_name, good name a)))
                    (λ _. Keeps-if _ _ _ (Yields-load_unverified ret') (
                      Yields-process_entries (recorded_image none image header verdict.result) _
                        header ret' (good none) refl)))))

      pub Yields-verify_image :
          Yields
            (Sound Good)
            Anything
            (verify_image crypto address ops names ab_suffix flags allow chain call full_name image)
      unfolding verify_image
      Yields-verify_image = Yields-bind (Yields-lift _) (λ verdict e.
          Yields-bind (Yields-after_verify allow verdict) (λ ret checked.
            Yields-bind (Yields-lift _) (λ src r.
              Yields-accept_image _ verdict ret
                (ap avb_vbmeta_image_header_to_host_byte_order ((read-slice image 0 256 r).0)) e
                checked)))
