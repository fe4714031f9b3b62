-- ===== src/Slot/Hash/Loads.antt =====
-- What comes before the digest test of a hash partition: names, sizes, images and stored digests.
-- The slot data stays as it is.
use android_boot_image_edito.Common.{
  ◌≢◌, ◌∙◌, ap, not, ◌&&◌, bit_and, ℕ, ◌≡◌, refl, arith, Bool, true, false, Option, none, some,
  Bytes, [], ◌∷◌, length, ◌==◌, ◌%◌, ◌^◌,
}
use android_boot_image_edito.Heap.{Heap}
use android_boot_image_edito.Util.Text.{avb_strdupv, avb_str_concat}
use android_boot_image_edito.Util.Strings.{avb_strlen}
use android_boot_image_edito.Descriptor.{AvbHashDescriptor}
use android_boot_image_edito.Ops.{
  AvbIoResult, io_ok, io_error_oom, io_error_io, io_error_no_such_partition,
  io_error_range_outside_partition, io_error_no_such_value, io_error_invalid_value_size,
  io_error_insufficient_space, AvbOps, result_error_oom, result_error_io,
}
use android_boot_image_edito.Slot.Exec.{
  SlotState, done, left, aborted, pure, leave, undefined, if_null, ◌>>=◌, ◌>>◌, check, or_io,
  allocated,
}
use android_boot_image_edito.Slot.Does.{
  Does-if, Does-leave, Does-or_leave, Does-weaken, Did, Does, Same, Any, oom_bad, io_bad,
  metadata_bad, Does-pure, Does-check, Does-undefined, Does-bind, Does-allocated,
}
use android_boot_image_edito.Slot.Plain.{plain_rules, Plain-if_null}
use android_boot_image_edito.Slot.Load.{
  before_nul, with_suffix, preloaded_partition, load_full_partition, size_of_partition,
}
use android_boot_image_edito.Slot.Digest.{
  persistent_digest_prefix, persistent_value_name, stored_digest, read_value, write_value,
  read_back, initialize_persistent_digest, read_persistent_digest,
}
use android_boot_image_edito.Slot.Hash.{hash_part_name}

-- The image, and whether it is preloaded: the first bytes of a partition, as many as were asked
-- for.
pub data LoadedFrom {Store : Type 0} (ops : AvbOps Store) (part_name : Bytes) (size : ℕ)
    : Bytes × Bool → Type 0 where
  from_partition :
      {image_buf : Bytes}
      → ops.read_from_partition part_name 0 size ≡ (io_ok, image_buf)
      → length image_buf ≡ size
      → LoadedFrom ops part_name size (image_buf, false)
  from_memory :
      {image_buf : Bytes} (get : Bytes → ℕ → AvbIoResult × Option Bytes)
      → ops.get_preloaded_partition ≡ some get
      → get part_name size ≡ (io_ok, some image_buf)
      → length image_buf ≡ size
      → LoadedFrom ops part_name size (image_buf, true)

pub LoadedFrom-length :
    {Store : Type 0} {ops : AvbOps Store} {part_name : Bytes} {size : ℕ} {image : Bytes × Bool}
    → LoadedFrom ops part_name size image
    → length image.0 ≡ size
LoadedFrom-length (from_partition read sized) = sized
LoadedFrom-length (from_memory get has got sized) = sized

-- The name of the partition that is read: the descriptor's, with the suffix unless its flag says
-- not to use A/B.
pub record IsPartName (ab_suffix : Bytes) (hash_desc : AvbHashDescriptor) (name part_name : Bytes)
    : Type 0 where
  pub plain : bit_and hash_desc.flags 1 ≢ 0 → part_name ≡ before_nul name
  pub suffixed :
      bit_and hash_desc.flags 1 ≡ 0
      → (filled : Bytes) × (avb_str_concat 32 name ab_suffix ≡ some filled)
        × (part_name ≡ before_nul filled)

-- A preloaded image that is used.
abbrev Fits : {Store : Type 0} → AvbOps Store → Bytes → ℕ → Option Bytes → Type 0
Fits ops part_name size none = Unit
Fits ops part_name size (some image_buf) = LoadedFrom ops part_name size (image_buf, true)

pub measured : (a n : ℕ) → (a == n) ≡ true → a ≡ n
measured a n e = ground (arith, e)

answered :
    {A : Type 0} (answer : AvbIoResult × A) (a : A)
    → answer.0 ≡ io_ok
    → answer.1 ≡ a
    → answer ≡ (io_ok, a)
answered (io_ret, x) a e e' = ap (λ (r : _). (io_ret, r)) e' ∙ ap (λ (r : AvbIoResult). (r, a)) e

module _ {Store : Type 0} where
  Plain-persistent_value_name :
      (name : Bytes) → Does {Store = Store} (Same Any) (persistent_value_name name)
  unfolding persistent_value_name
  Plain-persistent_value_name name = record {
    at = λ s. named s (avb_strdupv persistent_digest_prefix (name ∷ []) s.heap);
  }
    where
      named :
          (s : SlotState Store) (o : Option (Option Bytes × Heap))
          → Did (Same (λ (a : Bytes). Unit)) (s.slot_data) (elim o [
            | none ↦ aborted
            | some (none, heap') ↦ left result_error_oom (record s { heap = heap' })
            | some (some name, heap') ↦ done name (record s { heap = heap' })
          ])
      named s none = tt
      named s (some (none, heap')) = (oom_bad, refl)
      named s (some (some name, heap')) = (tt, refl)

  Plain-read_value :
      (ops : AvbOps Store) (read : Store → Bytes → ℕ → AvbIoResult × Bytes) (name : Bytes)
      (size : ℕ)
      → Does (Same Any) (read_value ops read name size)
  unfolding read_value
  Plain-read_value ops read name size = record { at = λ s. (tt, refl) }

  Plain-written :
      (name value : Bytes) (write : Store → Bytes → Bytes → AvbIoResult × Store)
      → Does {A = AvbIoResult} (Same Any) (λ s.
        done (write s.store name value).0 (record s { store = (write s.store name value).1 }))
  Plain-written name value write = record { at = λ s. (tt, refl) }

  Plain-write_value :
      (ops : AvbOps Store) (name value : Bytes) → Does (Same Any) (write_value ops name value)
  unfolding write_value
  Plain-write_value ops name value =
      Plain-if_null ops.write_persistent_value undefined _ Does-undefined
        (λ write. Plain-written name value write)

  Plain-stored_digest :
      (size : ℕ) (stored : Bytes) (io_ret : AvbIoResult)
      → Does {Store = Store} (Same Any) (stored_digest size stored io_ret)
  unfolding stored_digest check leave ◌>>=◌ pure
  Plain-stored_digest size stored io_ret = record { at = λ s. ground arith }

  ruleset digest_rules = (
    plain_rules, Plain-persistent_value_name, Plain-read_value, Plain-write_value,
    Plain-stored_digest,
  )

  Plain-read_back :
      (ops : AvbOps Store) (part_name : Bytes) (size : ℕ)
      → Does (Same Any) (read_back ops part_name size)
  unfolding read_back
  Plain-read_back ops part_name size = search digest_rules

  Plain-initialize :
      (ops : AvbOps Store) (part_name name initial_digest : Bytes)
      → Does (Same Any) (initialize_persistent_digest ops part_name name initial_digest)
  unfolding initialize_persistent_digest
  Plain-initialize ops part_name name initial_digest = search (digest_rules, Plain-read_back)

  pub Plain-read_persistent_digest :
      (ops : AvbOps Store) (part_name : Bytes) (size : ℕ) (initial_digest : Option Bytes)
      → Does (Same Any) (read_persistent_digest ops part_name size initial_digest)
  unfolding read_persistent_digest
  Plain-read_persistent_digest ops part_name size none = Plain-read_back ops part_name size
  Plain-read_persistent_digest ops part_name size (some initial_digest) =
      search (digest_rules, Plain-initialize) depth 9

  Does-or_io_ok :
      (io_ret : AvbIoResult) → Does {Store = Store} (Same (λ _. io_ret ≡ io_ok)) (or_io io_ret)
  unfolding or_io
  Does-or_io_ok io_ok = record { at = λ s. (refl, refl) }
  Does-or_io_ok io_error_oom = record { at = λ s. (oom_bad, refl) }
  Does-or_io_ok io_error_io = record { at = λ s. (io_bad, refl) }
  Does-or_io_ok io_error_no_such_partition = record { at = λ s. (io_bad, refl) }
  Does-or_io_ok io_error_range_outside_partition = record { at = λ s. (io_bad, refl) }
  Does-or_io_ok io_error_no_such_value = record { at = λ s. (io_bad, refl) }
  Does-or_io_ok io_error_invalid_value_size = record { at = λ s. (io_bad, refl) }
  Does-or_io_ok io_error_insufficient_space = record { at = λ s. (io_bad, refl) }

  pub Does-size_of_partition :
      (ops : AvbOps Store) (part_name : Bytes)
      → Does
          (Same (λ size. ops.get_size_of_partition part_name ≡ (io_ok, size)))
          (size_of_partition ops part_name)
  unfolding size_of_partition
  Does-size_of_partition ops part_name =
      Does-bind (Does-or_io_ok _)
        (λ _ good. Does-pure _ (answered (ops.get_size_of_partition part_name) _ good refl))

  pub Does-hash_part_name :
      (ab_suffix : Bytes) (hash_desc : AvbHashDescriptor) (name : Bytes)
      → Does {Store = Store}
          (Same (IsPartName ab_suffix hash_desc name))
          (hash_part_name ab_suffix hash_desc name)
  unfolding hash_part_name with_suffix
  Does-hash_part_name ab_suffix hash_desc name =
      Does-if (not (bit_and hash_desc.flags 1 == 0)) _ _
        (λ set. Does-bind (Does-check _ _ metadata_bad) (λ _ _.
          Does-pure _
            (record { plain = λ _. refl; suffixed = λ clear. absurd (set_flag clear set) })))
        (λ clear.
          Does-if (hash_desc.digest_len == 0 && not (avb_strlen ab_suffix == 0)) _ _
            (λ _. Does-leave _ metadata_bad)
            (λ _. Does-bind (Does-or_leave _ _ metadata_bad) (λ filled good. Does-pure _ (record {
              plain = λ set. absurd (set (clear_flag clear));
              suffixed = λ _. (filled, good, refl);
            }))))
    where
      set_flag : bit_and hash_desc.flags 1 ≡ 0 → not (bit_and hash_desc.flags 1 == 0) ≡ true → ⊥
      set_flag clear set = ground (arith, clear, set)

      clear_flag : not (bit_and hash_desc.flags 1 == 0) ≡ false → bit_and hash_desc.flags 1 ≡ 0
      clear_flag clear = ground (arith, clear)

  Does-preloaded :
      (ops : AvbOps Store) (part_name : Bytes) (size : ℕ)
      → Does (Same (Fits ops part_name size)) (preloaded_partition ops part_name size)
  unfolding preloaded_partition
  Does-preloaded ops part_name size = asked ops.get_preloaded_partition refl
    where
      used :
          (get : Bytes → ℕ → AvbIoResult × Option Bytes)
          → ops.get_preloaded_partition ≡ some get
          → (get part_name size).0 ≡ io_ok
          → (o : Option Bytes) → (get part_name size).1 ≡ o
          → Does {Store = Store} (Same (Fits ops part_name size)) (
              if_null o (pure none) (λ image_buf.
                check (length image_buf == size) result_error_io >> pure (some image_buf)))
      used get has good none e = Does-pure none tt
      used get has good (some image_buf) e =
          Does-bind (Does-check (length image_buf == size) _ io_bad) (λ _ sized.
            Does-pure (some image_buf) (
              from_memory get has (answered (get part_name size) _ good e)
                (measured (length image_buf) size sized)))

      asked :
          (o : Option (Bytes → ℕ → AvbIoResult × Option Bytes))
          → ops.get_preloaded_partition ≡ o
          → Does {Store = Store} (Same (Fits ops part_name size)) (
              if_null o (pure none) (λ get.
                let answer = get part_name size in
                or_io (answer.0)
                >> if_null (answer.1) (pure none) (λ image_buf.
                  check (length image_buf == size) result_error_io >> pure (some image_buf))))
      asked none has = Does-pure none tt
      asked (some get) has =
          Does-bind (Does-or_io_ok (get part_name size).0)
            (λ _ good. used get has good (get part_name size).1 refl)

  -- A loaded image is what the partition or the memory gave.
  pub Does-load_full_partition :
      (ops : AvbOps Store) (part_name : Bytes) (size : ℕ)
      → Does (Same (LoadedFrom ops part_name size)) (load_full_partition ops part_name size)
  unfolding load_full_partition
  Does-load_full_partition ops part_name size =
      Does-bind (Does-check (size == size % 2 ^ 64) _ metadata_bad) (λ _ _.
        Does-bind (Does-preloaded ops part_name size)
          (λ out_image_buf fits. loaded out_image_buf fits))
    where
      answer : AvbIoResult × Bytes
      answer = ops.read_from_partition part_name 0 size

      loaded :
          (o : Option Bytes)
          → Fits ops part_name size o
          → Does {Store = Store} (Same (LoadedFrom ops part_name size)) (
              if_null o
                (allocated
                  >> or_io (answer.0)
                  >> check (length answer.1 == size) result_error_io
                  >> pure (answer.1, false))
                (λ image_buf. pure (image_buf, true)))
      loaded none fits =
          Does-bind {F = λ _. (answer.0 ≡ io_ok) × ((length answer.1 == size) ≡ true)}
            (Does-bind (Does-bind Does-allocated (λ _ _. Does-or_io_ok answer.0)) (λ _ good.
              Does-weaken (Does-check (length answer.1 == size) _ io_bad)
                (λ _ d d' sized. ((good, sized.0), sized.1))))
            (λ _ known.
              Does-pure (answer.1, false)
                (from_partition (answered answer _ known.0 refl)
                  (measured (length answer.1) size known.1)))
      loaded (some image_buf) fits = Does-pure (image_buf, true) fits
