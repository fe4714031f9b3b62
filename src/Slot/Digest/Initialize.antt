-- ===== src/Slot/Digest/Initialize.antt =====
-- The persistent digest of a partition: found, missing, and initialised.
use android_boot_image_edito.Common.{
  ℕ, ◌^◌, ◌<◌, ◌≡◌, refl, sym, subst, arith, Bool, true, false, some, Bytes, [], ◌∷◌, ◌++◌, length,
  if◌then◌else◌, ◌==◌,
}
use android_boot_image_edito.Heap.{Heap}
use android_boot_image_edito.Util.Text.{avb_strdupv}
use android_boot_image_edito.Util.Text.Join.{strdupv_length-total}
use android_boot_image_edito.Ops.{
  AvbIoResult, io_ok, io_error_no_such_value, result_error_verification, AvbOps,
}
use android_boot_image_edito.Slot.Exec.{SlotState, done, left, check, pure, or_io, ◌>>=◌}
use android_boot_image_edito.Slot.Digest.{
  persistent_digest_prefix, persistent_value_name, read_persistent_digest, read_back, read_value,
  stored_digest, write_value, initialize_persistent_digest,
}

-- With memory to spare.
strdupv_name :
    (name : Bytes) (heap : Heap)
    → heap ≡ []
    → length name < 2 ^ 63
    → avb_strdupv persistent_digest_prefix (name ∷ []) heap
      ≡ some (some (persistent_digest_prefix ++ name), [])
unfolding avb_strdupv
strdupv_name name heap plenty short =
    let size =
      strdupv_length-total 0 0 persistent_digest_prefix (name ∷ []) (omega arith) (omega arith) in
    subst
      (λ h.
        avb_strdupv persistent_digest_prefix (name ∷ []) h
        ≡ some (some (persistent_digest_prefix ++ name), []))
      (sym plenty) (rw (size, avb_strdupv) refl)

persistent_value_name_lem :
    {Store : Type 0} (name : Bytes) (s : SlotState Store)
    → s.heap ≡ []
    → length name < 2 ^ 63
    → persistent_value_name name s
      ≡ done (persistent_digest_prefix ++ name) (record s { heap = [] })
unfolding persistent_value_name
persistent_value_name_lem name s plenty short =
    rw (strdupv_name name s.heap plenty short, persistent_value_name) refl

module _ {Store : Type 0} (ops : AvbOps Store) (read : Store → Bytes → ℕ → AvbIoResult × Bytes)
    (write : Store → Bytes → Bytes → AvbIoResult × Store) (part_name : Bytes)
    (has_read : ops.read_persistent_value ≡ some read)
    (has_write : ops.write_persistent_value ≡ some write) (short : length part_name < 2 ^ 63) where
  abbrev value_name : Bytes
  value_name = persistent_digest_prefix ++ part_name

  read_back_lem :
      (digest : Bytes) (s : SlotState Store)
      → s.heap ≡ []
      → read s.store value_name (length digest) ≡ (io_ok, digest)
      → read_back ops part_name (length digest) s ≡ done digest (record s { heap = [] })
  unfolding read_back ◌>>=◌ read_value stored_digest check pure
  read_back_lem digest s plenty stored =
      let same : (length digest == length digest) ≡ true = ground arith in
      simp (has_read, persistent_value_name_lem part_name s plenty short, stored, same) refl

  -- A digest that is not stored, on a device that tells whether it is unlocked, with memory to
  -- spare and values that are read back as they were written: a locked device stores the digest
  -- under the partition's name and returns it; an unlocked one answers that the verification fails,
  -- and stores nothing.
  pub initialize_when_locked :
      (digest missing : Bytes) (unlocked : Bool) (s : SlotState Store) (store' : Store)
      → s.heap ≡ []
      → ops.read_is_device_unlocked ≡ (io_ok, unlocked)
      → read s.store value_name (length digest) ≡ (io_error_no_such_value, missing)
      → write s.store value_name digest ≡ (io_ok, store')
      → read store' value_name (length digest) ≡ (io_ok, digest)
      → read_persistent_digest ops part_name (length digest) (some digest) s ≡ (
          if unlocked
          then left result_error_verification (record s { heap = [] })
          else done digest (record s { heap = []; store = store' }))
  unfolding read_persistent_digest initialize_persistent_digest ◌>>=◌ read_value write_value or_io
      check
  initialize_when_locked digest missing true s store' plenty lock no_value wrote back =
      simp (has_read, persistent_value_name_lem part_name s plenty short, no_value, lock) refl
  initialize_when_locked digest missing false s store' plenty lock no_value wrote back =
      simp
        (
          has_read,
          has_write,
          persistent_value_name_lem part_name s plenty short,
          no_value,
          lock,
          wrote,
        )
        (read_back_lem digest (record s { heap = []; store = store' }) refl back)
