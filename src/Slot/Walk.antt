-- ===== src/Slot/Walk.antt =====
-- The loop over the descriptors keeps the recorded images good, when the chained images do.
use android_boot_image_edito.Common.{
  ℕ, ◌≡◌, refl, Bool, true, not, ◌==◌, Option, none, some, Bytes, List, [], ◌∷◌, drop, All,
}
use android_boot_image_edito.Memory.{Run, ok}
use android_boot_image_edito.Descriptor.Foreach.Safe.{InRegion, Placed}
use android_boot_image_edito.Heap.{Heap}
use android_boot_image_edito.Crypto.{Primitives}
use android_boot_image_edito.Descriptor.{
  AvbHashtreeDescriptor, AvbChainPartitionDescriptor,
  avb_chain_partition_descriptor_validate_and_byteswap,
}
use android_boot_image_edito.Cmdline.Subst.{AvbCmdlineSubstList, avb_add_root_digest_substitution}
use android_boot_image_edito.Ops.{AvbSlotVerifyResult, AvbOps}
use android_boot_image_edito.Slot.Exec.{AvbVbMetaData, SlotState, done, aborted, Exec}
use android_boot_image_edito.Slot.Rules.{
  Ends, Yields, Anything, Yields-bind, Yields-check, Yields-lift, Yields-or_leave, Keeps-bind,
  Keeps-pure, Keeps-if, Yields-undefined, keeps_rules,
}
use android_boot_image_edito.Slot.Recorded.{
  Frame, Yields-set_slot_data, Yields-allocated, Yields-read_persistent_digest,
}
use android_boot_image_edito.Slot.Entries.{
  VbMetaCall, chain_call, after_chain, after_hash, extend_cmdline, kernel_cmdline_entry,
  add_root_digest, find_root_digest, hashtree_entry, chain_entry, by_tag, descriptor_entry, entries,
}
use android_boot_image_edito.Slot.Counts.{Sound, Sound-Frame, Yields-load_and_verify_hash_partition}

module _ {Store : Type 0} {I : SlotState Store → Type 0} (frame : Frame I) where
  Yields-extend_cmdline : (text : Bytes) → Yields I Anything (extend_cmdline text)
  unfolding extend_cmdline
  Yields-extend_cmdline text =
      Keeps-bind _ _ (Yields-allocated frame)
        (λ _. Yields-set_slot_data frame _ (λ d. refl) (λ d. refl))

  Yields-kernel_cmdline_entry :
      (flags : ℕ) (memory : Bytes) (ret : AvbSlotVerifyResult)
      → Yields I Anything (kernel_cmdline_entry flags memory ret)
  unfolding kernel_cmdline_entry
  Yields-kernel_cmdline_entry flags memory ret =
      search (keeps_rules, Yields-extend_cmdline) depth 14

  Yields-add_root_digest : (name digest : Bytes) → Yields I Anything (add_root_digest name digest)
  unfolding add_root_digest
  Yields-add_root_digest name digest = record {
    at = λ s h.
        added s h (avb_add_root_digest_substitution true name digest (s.substitutions) (s.heap));
  }
    where
      added :
          (s : SlotState Store)
          → I s
          → (o : Option ((AvbSlotVerifyResult × AvbCmdlineSubstList) × Heap))
          → Ends I
              (λ (r : AvbSlotVerifyResult). Unit {0})
              (elim o [
                | none ↦ aborted
                | some ((ret, list), heap') ↦
                    done ret (record s { substitutions = list; heap = heap' })
              ])
      added s h none = tt
      added s h (some ((ret, list), heap')) =
          (frame.keeps s (record s { substitutions = list; heap = heap' }) refl refl h, tt)

  Yields-find_root_digest :
      (ops : AvbOps Store) (ab_suffix : Bytes) (out : Bool) (memory : Bytes)
      (desc : AvbHashtreeDescriptor)
      → Yields I Anything (find_root_digest ops ab_suffix out memory desc)
  unfolding find_root_digest
  Yields-find_root_digest ops ab_suffix out memory desc =
      search (keeps_rules, Yields-add_root_digest, Yields-read_persistent_digest) depth 16

  Yields-hashtree_entry :
      (ops : AvbOps Store) (ab_suffix : Bytes) (out : Bool) (memory : Bytes)
      (ret : AvbSlotVerifyResult)
      → Yields I Anything (hashtree_entry ops ab_suffix out memory ret)
  unfolding hashtree_entry
  Yields-hashtree_entry ops ab_suffix out memory ret =
      search (keeps_rules, Yields-find_root_digest) depth 12

-- The call for each valid chain partition descriptor of the image keeps the invariant.
abbrev pub ChainsKeep :
    {Store : Type 0}
    → (SlotState Store → Type 0)
    → (VbMetaCall → Exec Store AvbSlotVerifyResult)
    → Bool
    → ℕ
    → ℕ
    → Bytes
    → Type 0
ChainsKeep I chain is_main_vbmeta flags base image =
    (o : ℕ) (desc : AvbChainPartitionDescriptor)
    → is_main_vbmeta ≡ true
    → InRegion base image o
    → avb_chain_partition_descriptor_validate_and_byteswap (drop o image) ≡ ok (some desc)
    → not (desc.rollback_index_location == 0) ≡ true
    → Yields I Anything (chain (chain_call flags (drop o image) desc))

option_of_run :
    (r : Run (Option AvbChainPartitionDescriptor)) (o : Option AvbChainPartitionDescriptor)
    {d : AvbChainPartitionDescriptor}
    → r ≡ ok o
    → o ≡ some d
    → r ≡ ok (some d)
option_of_run r o p q = cc (p, q)

module _ {Store : Type 0} {Good : AvbVbMetaData → Type 0} (crypto : Primitives) (ops : AvbOps Store)
    (names : List Bytes) (ab_suffix : Bytes) (allow : Bool)
    (chain : VbMetaCall → Exec Store AvbSlotVerifyResult) (main : Bool) (flags : ℕ) (out : Bool)
    (base : ℕ) (image : Bytes) (chains : ChainsKeep (Sound Good) chain main flags base image) where
  Yields-chain_entry :
      (o : ℕ) (ret : AvbSlotVerifyResult)
      → InRegion base image o
      → Yields (Sound Good) Anything (chain_entry chain main flags (drop o image) ret)
  unfolding chain_entry after_chain
  Yields-chain_entry o ret place = Yields-bind (Yields-check _ _) (λ _ is_main.
      Yields-bind (Yields-lift _) (λ r e. Yields-bind (Yields-or_leave _ _) (λ desc p.
        Yields-bind (Yields-check _ _) (λ _ nonzero.
          Keeps-bind _ _ (chains o desc is_main place (option_of_run _ r e p) nonzero)
            (λ sub_ret. search keeps_rules)))))

  Yields-by_tag :
      (tag o : ℕ) (ret : AvbSlotVerifyResult)
      → InRegion base image o
      → Yields
          (Sound Good)
          Anything
          (by_tag crypto ops names ab_suffix allow chain main flags out tag (drop o image) ret)
  unfolding by_tag after_hash
  Yields-by_tag tag o ret place =
      let frame = Sound-Frame {Store = Store} {Good = Good} in
      Keeps-if _ _ _
        (Keeps-bind _ _
          (Yields-load_and_verify_hash_partition crypto ops names ab_suffix allow (drop o image))
          (λ sub_ret. search keeps_rules))
        (Keeps-if _ _ _ (Yields-chain_entry o ret place) (
          Keeps-if _ _ _ (Yields-kernel_cmdline_entry frame flags (drop o image) ret) (
            Keeps-if _ _ _ (Yields-hashtree_entry frame ops ab_suffix out (drop o image) ret)
              (Keeps-pure ret))))

  Yields-descriptor_entry :
      (o : ℕ) (ret : AvbSlotVerifyResult)
      → InRegion base image o
      → Yields (Sound Good) Anything (
          descriptor_entry crypto ops names ab_suffix allow chain main flags out (drop o image) ret)
  unfolding descriptor_entry
  Yields-descriptor_entry o ret place = search (keeps_rules, Yields-by_tag) depth 9

  pub Yields-entries :
      (descriptors : List (Option ℕ)) (ret : AvbSlotVerifyResult)
      → All (Placed base image) descriptors
      → Yields
          (Sound Good)
          Anything
          (entries crypto ops names ab_suffix allow chain main flags out image descriptors ret)
  unfolding entries
  Yields-entries [] ret places = Keeps-pure ret
  Yields-entries (none ∷ descriptors) ret places = Yields-undefined
  Yields-entries (some o ∷ descriptors) ret places =
      Keeps-bind _ _ (Yields-descriptor_entry o ret places.0)
        (λ ret'. Yields-entries descriptors ret' places.1)
