-- ===== src/Slot/Load.antt =====
-- Names and whole partitions: `load_full_partition` and `load_requested_partitions`.
use android_boot_image_edito.Common.{
  ℕ, ◌+◌, ◌%◌, ◌^◌, Bool, true, false, not, ◌==◌, if◌then◌else◌, Option, none, some, List, Bytes,
  [], ◌∷◌, ◌++◌, length, take,
}
use android_boot_image_edito.Memory.{Run, ok, fault}
use android_boot_image_edito.Util.Compare.{same_bytes}
use android_boot_image_edito.Util.Strings.{avb_strdup}
use android_boot_image_edito.Util.Text.{avb_str_concat}
use android_boot_image_edito.Ops.{
  AvbSlotVerifyResult, result_ok, result_error_oom, result_error_io, result_error_invalid_metadata,
  AvbOps,
}
use android_boot_image_edito.Slot.Exec.{
  AvbPartitionData, AvbSlotVerifyData, Exec, pure, allocate, gets, or_leave, if_null, ◌>>=◌, ◌>>◌,
  check, or_io, allocated, set_slot_data,
}

-- The C string at the start of a memory, or a read behind its end.
unfoldable pub string_at : Bytes → Run Bytes
string_at [] = fault
string_at (c ∷ memory) = elim (c == 0) [
  | true ↦ ok []
  | false ↦ elim (string_at memory) [ fault ↦ fault | ok str ↦ ok (c ∷ str) ]
]

-- The C string in a buffer that has a NUL.
abbrev pub before_nul : Bytes → Bytes
before_nul [] = []
before_nul (c ∷ memory) = let rest = before_nul memory in if c == 0 then [] else c ∷ rest

-- `avb_strcmp(memory, str) == 0` where `memory` is longer than the literal `str`.
unfoldable pub strcmp_equal : Bytes → Bytes → Bool
strcmp_equal memory str = same_bytes (take (length str + 1) memory) (str ++ (0 ∷ []))

-- The name in the buffer of `AVB_PART_NAME_MAX_SIZE` bytes that `avb_str_concat` fills.
unfoldable pub with_suffix : {Store : Type 0} → Bytes → Bytes → Exec Store Bytes
with_suffix name ab_suffix = do
  part_name ← or_leave (avb_str_concat 32 name ab_suffix) result_error_invalid_metadata
  pure (before_nul part_name)

module _ {Store : Type 0} (ops : AvbOps Store) where
  -- A preloaded partition, or `none` when there is none to use.
  unfoldable pub preloaded_partition : Bytes → ℕ → Exec Store (Option Bytes)
  preloaded_partition part_name image_size =
      if_null (ops.get_preloaded_partition) (pure none) (λ get_preloaded.
        let answer = get_preloaded part_name image_size in
        or_io (answer.0)
        >> if_null (answer.1) (pure none) (λ image_buf.
          check (length image_buf == image_size) result_error_io >> pure (some image_buf)))

  -- The buffer and whether it is preloaded.
  unfoldable pub load_full_partition : Bytes → ℕ → Exec Store (Bytes × Bool)
  load_full_partition part_name image_size = do
    check (image_size == image_size % 2 ^ 64) result_error_invalid_metadata
    out_image_buf ← preloaded_partition part_name image_size
    if_null out_image_buf
        (let answer = ops.read_from_partition part_name 0 image_size in
          allocated
          >> or_io (answer.0)
          >> check (length answer.1 == image_size) result_error_io
          >> pure (answer.1, false))
        (λ image_buf. pure (image_buf, true))

  -- `ops->get_size_of_partition`
  unfoldable pub size_of_partition : Bytes → Exec Store ℕ
  size_of_partition part_name =
      let answer = ops.get_size_of_partition part_name in or_io (answer.0) >> pure (answer.1)

abbrev pub add_loaded : AvbPartitionData → AvbSlotVerifyData → AvbSlotVerifyData
add_loaded partition slot_data = record slot_data {
  loaded_partitions = slot_data.loaded_partitions ++ (partition ∷ []);
}

-- `num_loaded_partitions == MAX_NUMBER_OF_LOADED_PARTITIONS`
unfoldable pub room_for_partition : {Store : Type 0} → Exec Store Unit
room_for_partition = do
  partitions ← gets (λ s. s.slot_data.loaded_partitions)
  check (not (length partitions == 32)) result_error_oom

-- A name that could not be copied stays `NULL` in the array.
abbrev pub is_some {ℓ} : {A : Type ℓ} → Option A → Bool
is_some none = false
is_some (some a) = true

module _ {Store : Type 0} (ops : AvbOps Store) (ab_suffix : Bytes) where
  -- A round of the loop of `load_requested_partitions`.
  unfoldable pub load_requested_partition : Bytes → Exec Store Unit
  load_requested_partition requested = do
    part_name ← with_suffix requested ab_suffix
    image_size ← size_of_partition ops part_name
    image ← load_full_partition ops part_name image_size
    room_for_partition
    partition_name ← allocate (avb_strdup requested)
    set_slot_data (
        add_loaded (record {
          partition_name = partition_name;
          contents = if is_some partition_name then image.0 else [];
          data_size = if is_some partition_name then image_size else 0;
          preloaded = if is_some partition_name then image.1 else false;
        }))
    check (is_some partition_name) result_error_oom

  unfoldable pub load_requested_partitions : List Bytes → Exec Store AvbSlotVerifyResult
  load_requested_partitions [] = pure result_ok
  load_requested_partitions (requested ∷ requested_partitions) =
      load_requested_partition requested >> load_requested_partitions requested_partitions
