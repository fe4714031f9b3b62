-- ===== src/Slot/Verity/Modes.antt =====
-- The managed dm-verity mode over boots: `avb_manage_hashtree_error_mode` against an abstract
-- machine whose state is the noted digest.
use android_boot_image_edito.Common.{
  ℕ, ◌≡◌, ◌≢◌, ◌⊎◌, inl, inr, refl, sym, ◌∙◌, ap, subst, arith, Bool, true, false, not, ◌==◌,
  if◌then◌else◌, some, bit_and, Bytes, [], ◌∷◌, length, Bool-cases,
}
use android_boot_image_edito.Util.Compare.{same_bytes}
use android_boot_image_edito.Ops.{
  AvbIoResult, io_ok, io_error_no_such_value, AvbHashtreeErrorMode, mode_restart, mode_eio, AvbOps,
}
use android_boot_image_edito.Slot.Exec.{SlotState, Outcome, done, pure, ◌>>=◌}
use android_boot_image_edito.Slot.Digest.{read_value, write_value}
use android_boot_image_edito.Slot.Verity.{
  managed_verity_mode, write_mode, resolve_mode, manage_mode,
}

-- One boot: the digest of the OS, whether dm-verity caused it, and the digest that is noted, empty
-- for none; then the mode and the digest that is noted next.
unfoldable pub next_boot : Bytes → Bool → Bytes → AvbHashtreeErrorMode × Bytes
next_boot digest true noted = (mode_eio, digest)
next_boot digest false [] = (mode_restart, [])
next_boot digest false (b ∷ noted) =
    if same_bytes digest (b ∷ noted) then (mode_eio, b ∷ noted) else (mode_restart, [])

-- No value, or one of the 32 bytes of a digest.
abbrev pub Sized : Bytes → Type 0
Sized value = (value ≡ []) ⊎ (length value ≡ 32)

-- The device supports the value of the managed mode, which `noted` is, in these two sizes: a value
-- is read into a buffer of its size, one that was written empty is reported as one that does not
-- exist, and a write overwrites the value. Nothing is asked of other names, values and buffers.
pub record Persists {Store : Type 0} (ops : AvbOps Store) (noted : Store → Bytes) : Type 0 where
  pub read : Store → Bytes → ℕ → AvbIoResult × Bytes
  pub write : Store → Bytes → Bytes → AvbIoResult × Store
  pub has_read : ops.read_persistent_value ≡ some read
  pub has_write : ops.write_persistent_value ≡ some write
  pub reads :
      (store : Store)
      → length (noted store) ≡ 32
      → read store managed_verity_mode 32 ≡ (io_ok, noted store)
  pub misses :
      (store : Store)
      → noted store ≡ []
      → (read store managed_verity_mode 32).0 ≡ io_error_no_such_value
  pub writes :
      (store : Store) (value : Bytes)
      → Sized value
      → (write store managed_verity_mode value).0 ≡ io_ok
  pub notes :
      (store : Store) (value : Bytes)
      → Sized value
      → noted (write store managed_verity_mode value).1 ≡ value

module _ {Store : Type 0} (ops : AvbOps Store) (noted : Store → Bytes) (p : Persists ops noted)
    (digest : Bytes) where
  -- The outcome of a boot: the mode and the noted digest are as the machine says, and nothing but
  -- the store changes.
  abbrev pub Steps :
      Outcome Store (AvbIoResult × AvbHashtreeErrorMode)
      → SlotState Store
      → AvbHashtreeErrorMode × Bytes
      → Type 0
  Steps o s next =
      (store' : Store) × (o ≡ done (io_ok, next.0) (record s { store = store' }))
      × (noted store' ≡ next.1)

  write-Steps :
      (value : Bytes) (mode : AvbHashtreeErrorMode) (s : SlotState Store)
      → Sized value
      → Steps (write_mode ops digest value mode s) s (mode, value)
  unfolding write_mode write_value ◌>>=◌ pure
  write-Steps value mode s sized = (
    (p.write s.store managed_verity_mode value).1,
    simp (p.has_write, p.writes s.store value sized) refl,
    p.notes s.store value sized,
  )

  resolve-Steps :
      (stored : Bytes) (s : SlotState Store)
      → (stored ≡ []) ⊎ (length stored ≡ 32)
      → noted s.store ≡ stored
      → Steps (resolve_mode ops digest io_ok stored s) s (next_boot digest false stored)
  unfolding resolve_mode next_boot pure
  resolve-Steps [] s sized e = (s.store, refl, e)
  resolve-Steps (b ∷ stored) s (inl nothing) e = cc nothing
  resolve-Steps (b ∷ stored) s (inr sized) e =
      let some_bytes : (length (b ∷ stored) == 0) ≡ false = ground arith in
      let whole : (length (b ∷ stored) == 32) ≡ true = ground arith in
      elim (Bool-cases (same_bytes digest (b ∷ stored))) [
        | inl same ↦ rw (some_bytes, whole, same) (s.store, refl, e)
        | inr other ↦ rw (some_bytes, whole, other) (write-Steps [] mode_restart s (inl refl))
      ]

  resolve-none :
      (stored : Bytes) (s : SlotState Store)
      → noted s.store ≡ []
      → Steps
          (resolve_mode ops digest io_error_no_such_value stored s)
          s
          (next_boot digest false [])
  unfolding resolve_mode next_boot pure
  resolve-none stored s e = (s.store, refl, e)

  read-Steps :
      (s : SlotState Store)
      → Sized (noted s.store)
      → Steps
          ((read_value ops p.read managed_verity_mode 32 >>= λ answer.
              resolve_mode ops digest answer.0 answer.1)
            s)
          s
          (next_boot digest false (noted s.store))
  unfolding read_value ◌>>=◌
  read-Steps s sized = elim sized [
    | inr whole ↦ rw (p.reads s.store whole) (resolve-Steps (noted s.store) s (inr whole) refl)
    | inl nothing ↦
        rw (nothing, p.misses s.store nothing)
          (resolve-none ((p.read s.store managed_verity_mode 32).1) s nothing)
  ]

  -- On a device that keeps the value of the managed mode in the sizes 0 and 32, with a digest of 32
  -- bytes and a noted one that is none or of 32 bytes, a boot answers `OK` with the mode of the
  -- abstract machine and notes the digest that the machine notes; nothing else of the state
  -- changes.
  pub manage_refines :
      (flags : ℕ) (s : SlotState Store)
      → length digest ≡ 32
      → Sized (noted s.store)
      → (store' : Store) × (manage_mode ops digest flags s
          ≡ done
              (io_ok, (next_boot digest (not (bit_and flags 2 == 0)) (noted s.store)).0)
              (record s { store = store' }))
        × (noted store' ≡ (next_boot digest (not (bit_and flags 2 == 0)) (noted s.store)).1)
  unfolding manage_mode
  manage_refines flags s len sized = elim (Bool-cases (bit_and flags 2 == 0)) [
    | inl clear ↦ simp (p.has_read, p.has_write, clear) (read-Steps s sized)
    | inr corrupt ↦
        simp (p.has_read, p.has_write, corrupt)
          (unfold next_boot in write-Steps digest mode_eio s (inr len))
  ]

  -- Boots of the OS with this digest: one that dm-verity corruption caused, and any number that it
  -- did not, each from the persistent values of the last, with no boot of another OS in between.
  -- The mode is that of the last boot.
  pub data Boots : Store → AvbHashtreeErrorMode → Store → Type 0 where
    corrupted :
        {store store' : Store} {mode : AvbHashtreeErrorMode} (flags : ℕ) (s s' : SlotState Store)
        → not (bit_and flags 2 == 0) ≡ true
        → s.store ≡ store
        → manage_mode ops digest flags s ≡ done (io_ok, mode) s'
        → s'.store ≡ store'
        → Boots store mode store'
    again :
        {store store1 store' : Store} {mode mode' : AvbHashtreeErrorMode} (flags : ℕ)
        (s s' : SlotState Store)
        → Boots store mode store1
        → s.store ≡ store1
        → manage_mode ops digest flags s ≡ done (io_ok, mode') s'
        → s'.store ≡ store'
        → Boots store mode' store'

  same_end :
      {a b : AvbIoResult × AvbHashtreeErrorMode} {s s' : SlotState Store}
      → Outcome.done a s ≡ done b s'
      → (a.1 ≡ b.1) × (s.store ≡ s'.store)
  same_end e = (cc e, cc e)

  same_bytes_self : (bs : Bytes) → same_bytes bs bs ≡ true
  unfolding same_bytes
  same_bytes_self [] = refl
  same_bytes_self (b ∷ bs) = ground (arith, same_bytes_self bs)

  -- The machine stays in the mode.
  next_boot_eio : (corrupt : Bool) (bs : Bytes) → bs ≢ [] → next_boot bs corrupt bs ≡ (mode_eio, bs)
  unfolding next_boot
  next_boot_eio true bs h = refl
  next_boot_eio false [] h = absurd (h refl)
  next_boot_eio false (b ∷ bs) h = rw (same_bytes_self (b ∷ bs)) refl

  boot-eio :
      (flags : ℕ) (s s' : SlotState Store) (mode : AvbHashtreeErrorMode)
      → length digest ≡ 32
      → Sized (noted s.store)
      → next_boot digest (not (bit_and flags 2 == 0)) (noted s.store) ≡ (mode_eio, digest)
      → manage_mode ops digest flags s ≡ done (io_ok, mode) s'
      → (mode ≡ mode_eio) × (noted s'.store ≡ digest)
  boot-eio flags s s' mode len sized next e =
      let (store', runs, notes) = manage_refines flags s len sized in
      let (modes, stores) = same_end (sym e ∙ runs) in
      (
        modes ∙ ap (λ (x : AvbHashtreeErrorMode × Bytes). x.0) next,
        ap noted stores ∙ notes ∙ ap (λ (x : AvbHashtreeErrorMode × Bytes). x.1) next,
      )

  -- Once dm-verity corruption has caused a boot, each of the boots of the same OS that follow one
  -- another, with no other OS in between, has the mode `eio`, and the OS stays noted. The device
  -- keeps the value of the managed mode in the sizes 0 and 32, the digest has 32 bytes, and the
  -- digest that was noted before is none or has 32 bytes.
  pub eio_sticks :
      {store store' : Store} {mode : AvbHashtreeErrorMode}
      → length digest ≡ 32
      → Sized (noted store)
      → Boots store mode store'
      → (mode ≡ mode_eio) × (noted store' ≡ digest)
  eio_sticks len sized (corrupted flags s s' corrupt e runs e') =
      let (m, n) =
        boot-eio flags s s' _ len (subst Sized (ap noted (sym e)) sized)
          (unfold next_boot in rw corrupt refl) runs in
      (m, ap noted (sym e') ∙ n)
  eio_sticks len sized (again flags s s' boots e runs e') =
      let (_, was) = eio_sticks len sized boots in
      let here : noted s.store ≡ digest = ap noted e ∙ was in
      let (m, n) =
        boot-eio flags s s' _ len (inr (ap length here ∙ len))
          (rw here (
            next_boot_eio (not (bit_and flags 2 == 0)) digest
              (λ nothing. absurd (omega (arith, len, ap length nothing)))))
          runs in
      (m, ap noted (sym e') ∙ n)
