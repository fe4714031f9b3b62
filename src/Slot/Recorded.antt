-- ===== src/Slot/Recorded.antt =====
-- Which computations leave the recorded images and partitions as they are.
use android_boot_image_edito.Common.{
  ℕ, ◌≡◌, refl, arith, Option, none, some, Bytes, Bool-cases, inl, inr, [], ◌∷◌,
}
use android_boot_image_edito.Heap.{Alloc, Heap, malloc}
use android_boot_image_edito.Ops.{AvbIoResult, AvbOps, result_error_oom}
use android_boot_image_edito.Slot.Exec.{
  AvbSlotVerifyData, SlotState, pure, leave, undefined, allocate, gets, ◌>>=◌, check, allocated,
  set_slot_data, modify, done, left, aborted,
}
use android_boot_image_edito.Util.Text.{avb_strdupv}
use android_boot_image_edito.Slot.Rules.{
  Ends, Yields-abort, Yields-assert, keeps_rules, Keeps-if_null, Yields, Anything, Yields-pure,
  Yields-leave, Yields-undefined, Yields-if, Yields-if_null, Yields-lift, Yields-or_leave,
  Yields-check, Yields-or_io, Yields-bind,
}
use android_boot_image_edito.Slot.Load.{
  with_suffix, preloaded_partition, load_full_partition, size_of_partition,
}
use android_boot_image_edito.Slot.Digest.{
  persistent_digest_prefix, persistent_value_name, stored_digest, read_value, write_value,
  read_back, initialize_persistent_digest, read_persistent_digest,
}

-- The invariant is one of the recorded images and partitions.
pub record Frame {Store : Type 0} (I : SlotState Store → Type 0) : Type 0 where
  pub keeps :
      (s s' : SlotState Store)
      → s'.slot_data.vbmeta_images ≡ s.slot_data.vbmeta_images
      → s'.slot_data.loaded_partitions ≡ s.slot_data.loaded_partitions
      → I s
      → I s'

module _ {Store : Type 0} {I : SlotState Store → Type 0} (frame : Frame I) where
  pub Yields-modify :
      (f : SlotState Store → SlotState Store)
      → ((s : SlotState Store) → (f s).slot_data.vbmeta_images ≡ s.slot_data.vbmeta_images)
      → ((s : SlotState Store) → (f s).slot_data.loaded_partitions ≡ s.slot_data.loaded_partitions)
      → Yields I Anything (modify f)
  unfolding modify
  Yields-modify f p q = record { at = λ s h. (frame.keeps s (f s) (p s) (q s) h, tt) }

  pub Yields-set_slot_data :
      (f : AvbSlotVerifyData → AvbSlotVerifyData)
      → ((d : AvbSlotVerifyData) → (f d).vbmeta_images ≡ d.vbmeta_images)
      → ((d : AvbSlotVerifyData) → (f d).loaded_partitions ≡ d.loaded_partitions)
      → Yields I Anything (set_slot_data f)
  unfolding set_slot_data
  Yields-set_slot_data f p q = record {
    at = λ s h. (
      frame.keeps s (record s { slot_data = f s.slot_data }) (p s.slot_data) (q s.slot_data) h,
      tt,
    );
  }

  pub Yields-allocate : {A : Type 0} (m : Alloc A) → Yields I Anything (allocate m)
  unfolding allocate
  Yields-allocate m = record {
    at = λ s h. (frame.keeps s (record s { heap = (m s.heap).1 }) refl refl h, tt);
  }

  pub Yields-allocated : Yields I Anything allocated
  unfolding allocated
  Yields-allocated = record {
    at = λ s h.
        let h' = frame.keeps s (record s { heap = (malloc s.heap).1 }) refl refl h in
        elim (Bool-cases ((malloc s.heap).0)) [
          | inl got ↦ rw got (h', tt)
          | inr failed ↦ rw failed h'
        ];
  }

  pub Yields-gets : {A : Type 0} (f : SlotState Store → A) → Yields I Anything (gets f)
  unfolding gets
  Yields-gets f = record { at = λ s h. (h, tt) }

  pub Yields-persistent_value_name : (name : Bytes) → Yields I Anything (persistent_value_name name)
  unfolding persistent_value_name
  Yields-persistent_value_name name = record {
    at = λ s h. named s h (avb_strdupv persistent_digest_prefix (name ∷ []) s.heap);
  }
    where
      named :
          (s : SlotState Store)
          → I s
          → (o : Option (Option Bytes × Heap))
          → Ends I
              (λ (a : Bytes). Unit)
              (elim o [
                | none ↦ aborted
                | some (none, heap') ↦ left result_error_oom (record s { heap = heap' })
                | some (some name, heap') ↦ done name (record s { heap = heap' })
              ])
      named s h none = tt
      named s h (some (none, heap')) = frame.keeps s (record s { heap = heap' }) refl refl h
      named s h (some (some name, heap')) =
          (frame.keeps s (record s { heap = heap' }) refl refl h, tt)

  pub Yields-read_value :
      (ops : AvbOps Store) (read : Store → Bytes → ℕ → AvbIoResult × Bytes) (name : Bytes)
      (size : ℕ)
      → Yields I Anything (read_value ops read name size)
  unfolding read_value
  Yields-read_value ops read name size = record { at = λ s h. (h, tt) }

  Yields-written :
      (name value : Bytes) (write : Store → Bytes → Bytes → AvbIoResult × Store)
      → Yields {A = AvbIoResult} I Anything (λ s.
        done (write s.store name value).0 (record s { store = (write s.store name value).1 }))
  Yields-written name value write = record {
    at = λ s h. (frame.keeps s (record s { store = (write s.store name value).1 }) refl refl h, tt);
  }

  pub Yields-write_value :
      (ops : AvbOps Store) (name value : Bytes) → Yields I Anything (write_value ops name value)
  unfolding write_value
  Yields-write_value ops name value =
      Keeps-if_null ops.write_persistent_value undefined _ Yields-undefined
        (λ write. Yields-written name value write)

  pub Yields-stored_digest :
      (size : ℕ) (stored : Bytes) (io_ret : AvbIoResult)
      → Yields I Anything (stored_digest size stored io_ret)
  unfolding stored_digest check leave ◌>>=◌ pure
  Yields-stored_digest size stored io_ret = record { at = λ s h. ground arith }

  pub ruleset recorded_rules = (
    keeps_rules, Yields-allocate, Yields-allocated, Yields-gets, Yields-persistent_value_name,
    Yields-read_value, Yields-write_value, Yields-stored_digest,
  )

  Yields-read_back :
      (ops : AvbOps Store) (part_name : Bytes) (size : ℕ)
      → Yields I Anything (read_back ops part_name size)
  unfolding read_back
  Yields-read_back ops part_name size = search recorded_rules

  Yields-initialize :
      (ops : AvbOps Store) (part_name name initial_digest : Bytes)
      → Yields I Anything (initialize_persistent_digest ops part_name name initial_digest)
  unfolding initialize_persistent_digest
  Yields-initialize ops part_name name initial_digest = search (recorded_rules, Yields-read_back)

  pub Yields-read_persistent_digest :
      (ops : AvbOps Store) (part_name : Bytes) (size : ℕ) (initial_digest : Option Bytes)
      → Yields I Anything (read_persistent_digest ops part_name size initial_digest)
  unfolding read_persistent_digest
  Yields-read_persistent_digest ops part_name size none = Yields-read_back ops part_name size
  Yields-read_persistent_digest ops part_name size (some initial_digest) =
      search (recorded_rules, Yields-initialize)

  pub Yields-with_suffix :
      (name ab_suffix : Bytes) → Yields I Anything (with_suffix {Store = Store} name ab_suffix)
  unfolding with_suffix
  Yields-with_suffix name ab_suffix = search recorded_rules

  pub Yields-size_of_partition :
      (ops : AvbOps Store) (part_name : Bytes) → Yields I Anything (size_of_partition ops part_name)
  unfolding size_of_partition
  Yields-size_of_partition ops part_name = search recorded_rules

  Yields-preloaded :
      (ops : AvbOps Store) (part_name : Bytes) (size : ℕ)
      → Yields I Anything (preloaded_partition ops part_name size)
  unfolding preloaded_partition
  Yields-preloaded ops part_name size = search recorded_rules

  pub Yields-load_full_partition :
      (ops : AvbOps Store) (part_name : Bytes) (size : ℕ)
      → Yields I Anything (load_full_partition ops part_name size)
  unfolding load_full_partition
  Yields-load_full_partition ops part_name size = search (recorded_rules, Yields-preloaded) depth 9
