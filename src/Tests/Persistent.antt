-- ===== src/Tests/Persistent.antt =====
-- Persistent values: the managed mode over two boots, a digest that is stored, and the loop over
-- two descriptors.
use android_boot_image_edito.Common.{
  ℕ, ◌≡◌, refl, inl, arith, true, false, Option, none, some, Bytes, [], ◌∷◌, replicate, bit_and,
  leb, length, if◌then◌else◌, inr, ◌==◌, not,
}
use android_boot_image_edito.Ops.{
  AvbIoResult, io_ok, io_error_no_such_value, io_error_insufficient_space,
  io_error_invalid_value_size, AvbHashtreeErrorMode, mode_eio, AvbOps,
}
use android_boot_image_edito.Slot.Exec.{SlotState, done, pure, ◌>>=◌}
use android_boot_image_edito.Slot.Verify.{initial_state}
use android_boot_image_edito.Util.Compare.{same_bytes}
use android_boot_image_edito.Slot.Verity.{
  managed_verity_mode, manage_mode, write_mode, resolve_mode,
}
use android_boot_image_edito.Slot.Digest.{read_value, write_value, read_persistent_digest}
use android_boot_image_edito.Slot.Digest.Initialize.{initialize_when_locked}
use android_boot_image_edito.Slot.Verity.Modes.{
  next_boot, Sized, Persists, corrupted, again, manage_refines, eio_sticks,
}

-- A device that keeps one value of up to 64 bytes.
abbrev read_store : Bytes → Bytes → ℕ → AvbIoResult × Bytes
read_store [] name n = (io_error_no_such_value, [])
read_store (b ∷ value) name n =
    if leb (length (b ∷ value)) n then (io_ok, b ∷ value) else (io_error_insufficient_space, [])

abbrev write_store : Bytes → Bytes → Bytes → AvbIoResult × Bytes
write_store store name value =
    if leb (length value) 64 then (io_ok, value) else (io_error_invalid_value_size, store)

reads_whole :
    (store : Bytes) → length store ≡ 32 → read_store store managed_verity_mode 32 ≡ (io_ok, store)
reads_whole [] e = cc e
reads_whole (b ∷ store) e =
    let fits : leb (length (b ∷ store)) 32 ≡ true = ground (arith, e) in rw fits refl

reads_missing :
    (store : Bytes)
    → store ≡ []
    → (read_store store managed_verity_mode 32).0 ≡ io_error_no_such_value
reads_missing store e = rw e refl

small : (value : Bytes) → Sized value → leb (length value) 64 ≡ true
small value (inl e) = rw e refl
small value (inr e) = ground (arith, e)

abbrev pub store_ops : AvbOps Bytes
store_ops = record {
  read_from_partition = λ name o n. (io_ok, []);
  get_preloaded_partition = none;
  validate_vbmeta_public_key = λ key metadata. (io_ok, true);
  read_rollback_index = λ location. (io_ok, 0);
  read_is_device_unlocked = (io_ok, false);
  get_unique_guid_for_partition = λ name. (io_ok, []);
  get_size_of_partition = λ name. (io_ok, 0);
  read_persistent_value = some read_store;
  write_persistent_value = some write_store;
  validate_public_key_for_partition = none;
}

store_ops-Persists : Persists store_ops (λ store. store)
store_ops-Persists = record {
  read = read_store;
  write = write_store;
  has_read = refl;
  has_write = refl;
  reads = reads_whole;
  misses = reads_missing;
  writes = λ store value sized. rw (small value sized) refl;
  notes = λ store value sized. rw (small value sized) refl;
}

abbrev sample_digest : Bytes
sample_digest = replicate 32 7

abbrev blank : Bytes → SlotState Bytes
blank store = initial_state [] store

manage_refines_example :
    (store' : Bytes) × (manage_mode store_ops sample_digest 2 (blank [])
      ≡ done
          (io_ok, (next_boot sample_digest (not (bit_and 2 2 == 0)) []).0)
          (record (blank []) { store = store' }))
    × (store' ≡ (next_boot sample_digest (not (bit_and 2 2 == 0)) []).1)
manage_refines_example =
    manage_refines store_ops (λ store. store) store_ops-Persists sample_digest 2 (blank []) refl
      (inl refl)

first_boot :
    manage_mode store_ops sample_digest 2 (blank []) ≡ done (io_ok, mode_eio) (blank sample_digest)
unfolding manage_mode write_mode write_value ◌>>=◌ pure
first_boot = refl

second_boot :
    manage_mode store_ops sample_digest 0 (blank sample_digest)
    ≡ done (io_ok, mode_eio) (blank sample_digest)
unfolding manage_mode read_value resolve_mode ◌>>=◌ pure same_bytes
second_boot = refl

eio_sticks_example :
    (◌≡◌ {A = AvbHashtreeErrorMode} mode_eio mode_eio)
    × (◌≡◌ {A = Bytes} sample_digest sample_digest)
eio_sticks_example =
    eio_sticks store_ops (λ store. store) store_ops-Persists sample_digest refl (inl refl)
      (again 0 (blank sample_digest) (blank sample_digest)
        (corrupted 2 (blank []) (blank sample_digest) refl refl first_boot refl) refl second_boot
        refl)

abbrev read_option : Option Bytes → Bytes → ℕ → AvbIoResult × Bytes
read_option none name n = (io_error_no_such_value, [])
read_option (some value) name n = (io_ok, value)

abbrev option_ops : AvbOps (Option Bytes)
option_ops = record {
  read_from_partition = λ name o n. (io_ok, []);
  get_preloaded_partition = none;
  validate_vbmeta_public_key = λ key metadata. (io_ok, true);
  read_rollback_index = λ location. (io_ok, 0);
  read_is_device_unlocked = (io_ok, false);
  get_unique_guid_for_partition = λ name. (io_ok, []);
  get_size_of_partition = λ name. (io_ok, 0);
  read_persistent_value = some read_option;
  write_persistent_value = some (λ store name value. (io_ok, some value));
  validate_public_key_for_partition = none;
}

initialize_when_locked_example :
    read_persistent_digest option_ops (102 ∷ []) 32 (some sample_digest) (initial_state [] none)
    ≡ done sample_digest (initial_state [] (some sample_digest))
initialize_when_locked_example =
    initialize_when_locked option_ops read_option (λ store name value. (io_ok, some value))
      (102 ∷ []) refl refl (omega arith) sample_digest [] false (initial_state [] none)
      (some sample_digest) refl refl refl refl refl
