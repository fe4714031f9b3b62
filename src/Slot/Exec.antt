-- ===== src/Slot/Exec.antt =====
-- The state of a slot verification and the computations over it: `AvbSlotVerifyData` with what the
-- functions of c/avb_slot_verify.c change beside it, and the ways in which they leave.
use android_boot_image_edito.Common.{ℕ, Bool, if◌then◌else◌, Option, none, some, Bytes, List}
use android_boot_image_edito.Memory.{Run, ok, fault}
use android_boot_image_edito.Heap.{Heap, malloc, Alloc}
use android_boot_image_edito.Ops.{
  AvbIoResult, io_ok, io_error_oom, AvbSlotVerifyResult, result_error_oom, result_error_io,
  AvbHashtreeErrorMode,
}
use android_boot_image_edito.Vbmeta.Verify.{AvbVbMetaVerifyResult}
use android_boot_image_edito.Cmdline.Subst.{AvbCmdlineSubstList}

pub record AvbPartitionData : Type 0 where
  pub partition_name : Option Bytes
  pub contents : Bytes
  pub data_size : ℕ
  pub preloaded : Bool

pub record AvbVbMetaData : Type 0 where
  pub partition_name : Option Bytes
  pub vbmeta_data : Bytes
  pub vbmeta_size : ℕ
  pub verify_result : AvbVbMetaVerifyResult

pub record AvbSlotVerifyData : Type 0 where
  pub ab_suffix : Option Bytes
  pub vbmeta_images : List AvbVbMetaData
  pub loaded_partitions : List AvbPartitionData
  pub cmdline : Option Bytes
  pub rollback_indexes : List ℕ
  pub resolved_hashtree_error_mode : AvbHashtreeErrorMode

-- `slot_data`, the allocations, the persistent values, and the two variables of `avb_slot_verify`
-- that `load_and_verify_vbmeta` writes to.
pub record SlotState (Store : Type 0) : Type 0 where
  pub heap : Heap
  pub store : Store
  pub slot_data : AvbSlotVerifyData
  pub algorithm_type : ℕ
  pub substitutions : AvbCmdlineSubstList

-- `left` is `goto out` or `goto fail` with that `ret`, `aborted` a failed assertion or `avb_fatal`,
-- `outside` an access outside the memory that the model was given.
pub data Outcome (Store A : Type 0) : Type 0 where
  done : A → SlotState Store → Outcome Store A
  left : AvbSlotVerifyResult → SlotState Store → Outcome Store A
  aborted outside out_of_fuel : Outcome Store A

abbrev pub Exec : Type 0 → Type 0 → Type 0
Exec Store A = SlotState Store → Outcome Store A

module _ {Store A : Type 0} where
  unfoldable pub pure : A → Exec Store A
  pure a s = done a s

  -- `ret = …; goto out;`
  unfoldable pub leave : AvbSlotVerifyResult → Exec Store A
  leave ret s = left ret s

  unfoldable pub abort : Exec Store A
  abort s = aborted

  -- A use of a variable or a pointer that has no value.
  unfoldable pub undefined : Exec Store A
  undefined s = outside

  unfoldable pub lift : Run A → Exec Store A
  lift (ok a) s = done a s
  lift fault s = outside

  -- What a function that allocates returns.
  unfoldable pub allocate : Alloc A → Exec Store A
  allocate m s = let (a, heap') = m (s.heap) in done a (record s { heap = heap' })

  unfoldable pub gets : (SlotState Store → A) → Exec Store A
  gets f s = done (f s) s

  -- A pointer that may be `NULL`, or a check that may fail.
  unfoldable pub or_leave : Option A → AvbSlotVerifyResult → Exec Store A
  or_leave none ret s = left ret s
  or_leave (some a) ret s = done a s

module _ {Store A B : Type 0} where
  infixl 5 ◌>>=◌ ◌>>◌
  abbrev pub continue : Outcome Store A → (A → Exec Store B) → Outcome Store B
  continue (done a s) f = f a s
  continue (left ret s) f = left ret s
  continue aborted f = aborted
  continue outside f = outside
  continue out_of_fuel f = out_of_fuel

  unfoldable pub ◌>>=◌ : Exec Store A → (A → Exec Store B) → Exec Store B
  ◌>>=◌ m f s = continue (m s) f

  abbrev pub ◌>>◌ : Exec Store A → Exec Store B → Exec Store B
  m >> n = m >>= λ _. n

-- `if (pointer == NULL) … else …`
abbrev pub if_null : {A B : Type 0} → Option A → B → (A → B) → B
if_null none b f = b
if_null (some a) b f = f a

module _ {Store : Type 0} where
  unfoldable pub modify : (SlotState Store → SlotState Store) → Exec Store Unit
  modify f s = done tt (f s)

  unfoldable pub check : Bool → AvbSlotVerifyResult → Exec Store Unit
  check b ret s = if b then done tt s else left ret s

  -- `avb_assert`, which `AVB_ENABLE_DEBUG` enables.
  unfoldable pub avb_assert : Bool → Exec Store Unit
  avb_assert b s = if b then done tt s else aborted

  -- `if (io_ret == AVB_IO_RESULT_ERROR_OOM) … else if (io_ret != AVB_IO_RESULT_OK) …`
  unfoldable pub or_io : AvbIoResult → Exec Store Unit
  or_io io_ok s = done tt s
  or_io io_error_oom s = left result_error_oom s
  or_io _ s = left result_error_io s

  unfoldable pub allocated : Exec Store Unit
  allocated s =
      let (got, heap') = malloc (s.heap) in
      let s' : SlotState Store = record s { heap = heap' } in
      if got then done tt s' else left result_error_oom s'

  abbrev pub returned_as : Outcome Store AvbSlotVerifyResult → Outcome Store AvbSlotVerifyResult
  returned_as (left ret s) = done ret s
  returned_as (done ret s) = done ret s
  returned_as aborted = aborted
  returned_as outside = outside
  returned_as out_of_fuel = out_of_fuel

  -- The body of a function whose `out:` returns `ret`, as its caller sees it.
  unfoldable pub function : Exec Store AvbSlotVerifyResult → Exec Store AvbSlotVerifyResult
  function m s = returned_as (m s)

  unfoldable pub set_slot_data : (AvbSlotVerifyData → AvbSlotVerifyData) → Exec Store Unit
  set_slot_data f s = done tt (record s { slot_data = f (s.slot_data) })
