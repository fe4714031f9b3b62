-- ===== src/Slot/Entries.antt =====
-- The loop over the descriptors in `load_and_verify_vbmeta`. `memory` is the image from a
-- descriptor on, and `ret` the value that the variable `ret` has when a descriptor is reached.
use android_boot_image_edito.Common.{
  ℕ, ◌+◌, Bool, true, false, not, ◌&&◌, ◌||◌, leb, ◌==◌, if◌then◌else◌, Option, none, some, bit_and,
  Bytes, List, [], ◌∷◌, ◌++◌, drop,
}
use android_boot_image_edito.Memory.{read}
use android_boot_image_edito.Util.Utf8.{avb_validate_utf8}
use android_boot_image_edito.Util.Strings.{avb_strlen}
use android_boot_image_edito.Crypto.{Primitives}
use android_boot_image_edito.Descriptor.{
  tag_hashtree, tag_hash, tag_kernel_cmdline, tag_chain_partition,
  avb_descriptor_validate_and_byteswap, AvbHashtreeDescriptor,
  avb_hashtree_descriptor_validate_and_byteswap,
  avb_kernel_cmdline_descriptor_validate_and_byteswap, AvbChainPartitionDescriptor,
  avb_chain_partition_descriptor_validate_and_byteswap,
}
use android_boot_image_edito.Ops.{
  AvbSlotVerifyResult, result_ok, result_error_invalid_metadata, AvbOps, result_should_continue,
  is_ok,
}
use android_boot_image_edito.Cmdline.Subst.{avb_add_root_digest_substitution}
use android_boot_image_edito.Slot.Exec.{
  done, aborted, Exec, pure, leave, undefined, lift, or_leave, ◌>>=◌, ◌>>◌, check, allocated,
  set_slot_data,
}
use android_boot_image_edito.Slot.Load.{before_nul, strcmp_equal}
use android_boot_image_edito.Slot.Digest.{read_persistent_digest}
use android_boot_image_edito.Slot.Hash.{word_sha256, word_sha512, load_and_verify_hash_partition}

-- The arguments of `load_and_verify_vbmeta` that its calls differ in. A pointer is the memory from
-- it on. `has_outputs` is false where `out_algorithm_type` and `out_additional_cmdline_subst` are
-- `NULL`.
pub record VbMetaCall : Type 0 where
  pub toplevel_vbmeta_flags : ℕ
  pub rollback_index_location : ℕ
  pub partition_name : Bytes
  pub partition_name_len : ℕ
  pub expected_public_key : Option Bytes
  pub expected_public_key_length : ℕ
  pub has_outputs : Bool

-- The call for a chain partition descriptor.
abbrev pub chain_call : ℕ → Bytes → AvbChainPartitionDescriptor → VbMetaCall
chain_call toplevel_vbmeta_flags memory chain_desc = record {
  toplevel_vbmeta_flags = toplevel_vbmeta_flags;
  rollback_index_location = chain_desc.rollback_index_location;
  partition_name = drop 92 memory;
  partition_name_len = chain_desc.partition_name_len;
  expected_public_key = some (drop (92 + chain_desc.partition_name_len) memory);
  expected_public_key_length = chain_desc.public_key_len;
  has_outputs = false;
}

-- `sub_ret` of a chained image. Nothing here asks whether errors are allowed.
unfoldable pub after_chain :
    {Store : Type 0} → AvbSlotVerifyResult → AvbSlotVerifyResult → Exec Store AvbSlotVerifyResult
after_chain ret sub_ret =
    if is_ok sub_ret
    then pure ret
    else if result_should_continue sub_ret
    then pure sub_ret
    else leave sub_ret

-- `sub_ret` of a hash descriptor.
unfoldable pub after_hash :
    {Store : Type 0}
    → Bool
    → AvbSlotVerifyResult
    → AvbSlotVerifyResult
    → Exec Store AvbSlotVerifyResult
after_hash allow_verification_error ret sub_ret =
    if is_ok sub_ret
    then pure ret
    else if not allow_verification_error || not (result_should_continue sub_ret)
    then leave sub_ret
    else pure sub_ret

-- `apply_cmdline`
unfoldable pub apply_cmdline : ℕ → ℕ → Bool
apply_cmdline toplevel_vbmeta_flags flags =
    if not (bit_and toplevel_vbmeta_flags 1 == 0)
    then (if not (bit_and flags 1 == 0) then false else true)
    else if not (bit_and flags 2 == 0)
    then false
    else true

-- The new `slot_data->cmdline`.
abbrev pub extended : Option Bytes → Bytes → Bytes
extended none kernel_cmdline = before_nul kernel_cmdline
extended (some cmdline) kernel_cmdline = cmdline ++ (32 ∷ before_nul kernel_cmdline)

unfoldable pub extend_cmdline : {Store : Type 0} → Bytes → Exec Store Unit
extend_cmdline kernel_cmdline =
    allocated
    >> set_slot_data (λ slot_data. record slot_data {
      cmdline = some (extended slot_data.cmdline kernel_cmdline);
    })

unfoldable pub kernel_cmdline_entry :
    {Store : Type 0} → ℕ → Bytes → AvbSlotVerifyResult → Exec Store AvbSlotVerifyResult
kernel_cmdline_entry toplevel_vbmeta_flags memory ret = do
  desc ← lift (avb_kernel_cmdline_descriptor_validate_and_byteswap memory)
  kernel_cmdline_desc ← or_leave desc result_error_invalid_metadata
  kernel_cmdline ← lift (read memory 24 kernel_cmdline_desc.kernel_cmdline_length)
  check (avb_validate_utf8 kernel_cmdline) result_error_invalid_metadata
  if apply_cmdline toplevel_vbmeta_flags kernel_cmdline_desc.flags
      then extend_cmdline kernel_cmdline
      else pure tt
  pure ret

-- "sha1"
abbrev pub word_sha1 : Bytes
word_sha1 = 115 ∷ 104 ∷ 97 ∷ 49 ∷ []

-- `digest_len`, from the hash algorithm of the descriptor.
unfoldable pub root_digest_size : Bytes → Option ℕ
root_digest_size hash_algorithm =
    if strcmp_equal hash_algorithm word_sha1
    then some 20
    else if strcmp_equal hash_algorithm word_sha256
    then some 32
    else if strcmp_equal hash_algorithm word_sha512
    then some 64
    else none

-- `ret` is that of `avb_add_root_digest_substitution`; its assertions are enabled.
unfoldable pub add_root_digest : {Store : Type 0} → Bytes → Bytes → Exec Store AvbSlotVerifyResult
add_root_digest part_name digest s =
    elim (avb_add_root_digest_substitution true part_name digest (s.substitutions) (s.heap)) [
      | none ↦ aborted
      | some ((ret, substitutions'), heap') ↦
          done ret (record s { substitutions = substitutions'; heap = heap' })
    ]

-- The body of `if (hashtree_desc.root_digest_len == 0)`: the new `ret`.
unfoldable pub find_root_digest :
    {Store : Type 0}
    → AvbOps Store
    → Bytes
    → Bool
    → Bytes
    → AvbHashtreeDescriptor
    → Exec Store AvbSlotVerifyResult
find_root_digest ops ab_suffix has_outputs memory hashtree_desc = do
  name ← lift (read memory 180 hashtree_desc.partition_name_len)
  check (avb_validate_utf8 name) result_error_invalid_metadata
  check (not (bit_and hashtree_desc.flags 1 == 0 && not (avb_strlen ab_suffix == 0)))
      result_error_invalid_metadata
  check (not (leb 32 hashtree_desc.partition_name_len)) result_error_invalid_metadata
  digest_len ←
      or_leave (root_digest_size hashtree_desc.hash_algorithm) result_error_invalid_metadata
  digest ← read_persistent_digest ops (before_nul name) digest_len none
  if has_outputs
      then (do
        ret ← add_root_digest (before_nul name) digest
        if is_ok ret then pure result_ok else leave ret)
      else pure result_ok

unfoldable pub hashtree_entry :
    {Store : Type 0}
    → AvbOps Store
    → Bytes
    → Bool
    → Bytes
    → AvbSlotVerifyResult
    → Exec Store AvbSlotVerifyResult
hashtree_entry ops ab_suffix has_outputs memory ret = do
  desc ← lift (avb_hashtree_descriptor_validate_and_byteswap memory)
  hashtree_desc ← or_leave desc result_error_invalid_metadata
  if hashtree_desc.root_digest_len == 0
      then find_root_digest ops ab_suffix has_outputs memory hashtree_desc
      else pure ret

-- `chain` is the recursive call.
unfoldable pub chain_entry :
    {Store : Type 0}
    → (VbMetaCall → Exec Store AvbSlotVerifyResult)
    → Bool
    → ℕ
    → Bytes
    → AvbSlotVerifyResult
    → Exec Store AvbSlotVerifyResult
chain_entry chain is_main_vbmeta toplevel_vbmeta_flags memory ret = do
  check is_main_vbmeta result_error_invalid_metadata
  desc ← lift (avb_chain_partition_descriptor_validate_and_byteswap memory)
  chain_desc ← or_leave desc result_error_invalid_metadata
  check (not (chain_desc.rollback_index_location == 0)) result_error_invalid_metadata
  sub_ret ← chain (chain_call toplevel_vbmeta_flags memory chain_desc)
  after_chain ret sub_ret

module _ (crypto : Primitives) {Store : Type 0} (ops : AvbOps Store)
    (requested_partitions : List Bytes) (ab_suffix : Bytes) (allow_verification_error : Bool)
    (chain : VbMetaCall → Exec Store AvbSlotVerifyResult) (is_main_vbmeta : Bool)
    (toplevel_vbmeta_flags : ℕ) (has_outputs : Bool) where
  -- `switch (desc.tag)`
  unfoldable pub by_tag : ℕ → Bytes → AvbSlotVerifyResult → Exec Store AvbSlotVerifyResult
  by_tag tag memory ret =
      if tag == tag_hash
      then (do
        sub_ret ←
            load_and_verify_hash_partition crypto ops requested_partitions ab_suffix
              allow_verification_error memory
        after_hash allow_verification_error ret sub_ret)
      else if tag == tag_chain_partition
      then chain_entry chain is_main_vbmeta toplevel_vbmeta_flags memory ret
      else if tag == tag_kernel_cmdline
      then kernel_cmdline_entry toplevel_vbmeta_flags memory ret
      else if tag == tag_hashtree
      then hashtree_entry ops ab_suffix has_outputs memory ret
      else pure ret

  -- A round of the loop: the next `ret`.
  unfoldable pub descriptor_entry : Bytes → AvbSlotVerifyResult → Exec Store AvbSlotVerifyResult
  descriptor_entry memory ret = do
    src ← lift (read memory 0 16)
    let desc = avb_descriptor_validate_and_byteswap src
    check (desc.1) result_error_invalid_metadata
    by_tag (desc.0.tag) memory ret

  -- The loop over `descriptors`; a `NULL` in the array is not read.
  unfoldable pub entries :
      Bytes → List (Option ℕ) → AvbSlotVerifyResult → Exec Store AvbSlotVerifyResult
  entries image [] ret = pure ret
  entries image (none ∷ descriptors) ret = undefined
  entries image (some o ∷ descriptors) ret =
      descriptor_entry (drop o image) ret >>= λ ret'. entries image descriptors ret'
