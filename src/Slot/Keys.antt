-- ===== src/Slot/Keys.antt =====
-- What the operations that judge a key establish, and the verdict on the image.
use android_boot_image_edito.Common.{
  ℕ, ◌≤◌, ◌≡◌, inl, inr, refl, arith, Bool, true, false, not, ◌==◌, Option, bit_and, Bytes, IsBytes,
  take, ltb, length, take_all, length-take, drop, ap, none, some,
}
use android_boot_image_edito.Memory.{read, slice, ok}
use android_boot_image_edito.Util.Compare.{memcmp_agrees}
use android_boot_image_edito.Crypto.{Primitives}
use android_boot_image_edito.Vbmeta.Header.{AvbVbMetaImageHeader}
use android_boot_image_edito.Vbmeta.Verify.{result_ok, Verdict}
use android_boot_image_edito.Ops.{
  AvbIoResult, io_ok, AvbSlotVerifyResult, result_error_public_key_rejected, AvbOps,
}
use android_boot_image_edito.Slot.Exec.{SlotState, pure, leave, ◌>>=◌, check, avb_assert}
use android_boot_image_edito.Slot.Rules.{
  Yields, Yields-pure, Yields-undefined, Yields-if, Yields-if_null, Yields-lift, Yields-assert,
  Yields-or_io, Yields-bind, Yields-weaken,
}
use android_boot_image_edito.Slot.Load.{is_some}
use android_boot_image_edito.Slot.Entries.{VbMetaCall}
use android_boot_image_edito.Slot.Checks.{
  is_main, after_verify, tolerate, key_metadata, trusted_key, chained_key, anchored_key,
  check_rollback,
}
use android_boot_image_edito.Slot.Trust.{HasMetadata, KeyTrusted}
use android_boot_image_edito.Vbmeta.Verify.Authentic.{header_of}

main_location : (flags location : ℕ) → is_main flags location ≡ true → location ≡ 0
main_location flags location e = ground arith

pair_eta : (p : AvbIoResult × Bool) → p.0 ≡ io_ok → p.1 ≡ true → p ≡ (io_ok, true)
pair_eta (a, b) e f = rw (e, f) refl

with_ok : (p : AvbIoResult × ℕ) → p.0 ≡ io_ok → p ≡ (io_ok, p.1)
with_ok (a, b) e = rw e refl

triple_eta : (p : AvbIoResult × Bool × ℕ) → p.0 ≡ io_ok → p.1 ≡ true → p ≡ (io_ok, true, p.2)
triple_eta (a, b, c) e f = rw (e, f) refl

pub read-slice :
    (image : Bytes) (o n : ℕ) {bs : Bytes}
    → read image o n ≡ ok bs
    → (bs ≡ slice image o n) × (take n bs ≡ bs)
unfolding read
read-slice image o n {bs} e =
    let same : bs ≡ slice image o n = ground arith in
    (same, take_all n bs (omega (arith, ap length same, length-take n (drop o image))))

at_least : (n : ℕ) → ltb 0 n ≡ true → 1 ≤ n
at_least n e = ground (arith, e)

no_bytes : (n : ℕ) → ltb 0 n ≡ false → n ≡ 0
no_bytes n e = ground (arith, e)

module _ {Store : Type 0} {I : SlotState Store → Type 0} where
  -- Without errors allowed, the image has verified and has a key.
  pub Yields-after_verify :
      (allow : Bool) (verdict : Verdict)
      → Yields I
          (λ ret.
            allow ≡ false → (verdict.result ≡ result_ok) × (is_some verdict.public_key ≡ true))
          (after_verify allow verdict)
  unfolding after_verify avb_assert check pure leave ◌>>=◌
  Yields-after_verify allow verdict = record { at = λ s h. ground arith }

  Yields-tolerate :
      (allow b : Bool) (ret error : AvbSlotVerifyResult)
      → Yields I (λ _. allow ≡ false → b ≡ true) (tolerate allow b ret error)
  unfolding tolerate check pure ◌>>=◌
  Yields-tolerate allow b ret error = record { at = λ s h. ground arith }

  Yields-key_metadata :
      (ops : AvbOps Store) (crypto : Primitives) (address : Bytes → ℕ) (image : Bytes)
      → Yields I (HasMetadata crypto address ops image) (key_metadata image (header_of image))
  unfolding key_metadata
  Yields-key_metadata ops crypto address image =
      Yields-if (ltb 0 (header_of image).public_key_metadata_size) _ _
        (λ some_bytes. Yields-bind (Yields-lift _) (λ metadata e.
          Yields-pure (some metadata) (at_least _ some_bytes, (read-slice image _ _ e).0)))
        (λ nothing. Yields-pure none (no_bytes _ nothing))

  module _ (ops : AvbOps Store) (flags : ℕ) where
    Yields-trusted_key :
        (crypto : Primitives) (address : Bytes → ℕ) (location : ℕ) (name key : Bytes)
        (image : Bytes) (metadata : Option Bytes)
        → HasMetadata crypto address ops image metadata
        → Yields I
            (λ trust. trust.0 ≡ true → KeyTrusted crypto address ops name image key trust.1)
            (trusted_key ops flags (is_main flags location) location name key metadata)
    unfolding trusted_key
    Yields-trusted_key crypto address location name key image metadata whose =
        Yields-if (not (bit_and flags 4 == 0)) _ _
          (λ _.
            Yields-if_null ops.validate_public_key_for_partition _ _ (λ _. Yields-undefined)
              (λ validate e. Yields-bind (Yields-or_io _) (λ _ good. Yields-pure _ (λ t.
                inr
                  (metadata, whose, validate, e, triple_eta (validate name key metadata) good t)))))
          (λ _. Yields-bind (Yields-assert _) (λ _ main. Yields-bind (Yields-or_io _) (λ _ good.
            Yields-pure _ (λ t. inl (
              metadata,
              whose,
              main_location flags location main,
              pair_eta (ops.validate_vbmeta_public_key key metadata) good t,
            )))))

    pub Yields-anchored_key :
        (crypto : Primitives) (address : Bytes → ℕ) (allow : Bool) (call : VbMetaCall)
        (name image key : Bytes) (ret : AvbSlotVerifyResult)
        → Yields I
            (λ r. allow ≡ false → KeyTrusted crypto address ops name image key r.1)
            (anchored_key ops flags allow call name image (header_of image) key ret)
    unfolding anchored_key
    Yields-anchored_key crypto address allow call name image key ret =
        Yields-bind (Yields-key_metadata ops crypto address image) (λ metadata whose.
          Yields-bind
            (Yields-trusted_key crypto address call.rollback_index_location name key image metadata
              whose)
            (λ trust judged.
              Yields-bind (Yields-tolerate allow trust.0 ret result_error_public_key_rejected)
                (λ ret' f. Yields-pure _ (λ a. judged (f a)))))

    pub Yields-chained_key :
        (allow : Bool) (call : VbMetaCall) (expected key : Bytes) (pk_len : ℕ)
        (ret : AvbSlotVerifyResult)
        → IsBytes expected
        → IsBytes key
        → Yields I
            (λ r.
              allow ≡ false
              → (r.1 ≡ call.rollback_index_location)
                × (call.expected_public_key_length ≡ pk_len)
                × (take pk_len expected ≡ take pk_len key))
            (chained_key ops flags allow call expected key pk_len ret)
    unfolding chained_key
    Yields-chained_key allow call expected key pk_len ret be bk =
        Yields-bind (Yields-assert _) (λ _ _.
          Yields-bind
            (Yields-if
              {F = λ differs.
                (differs == 0) ≡ true
                → (call.expected_public_key_length ≡ pk_len)
                  × (take pk_len expected ≡ take pk_len key)}
              (call.expected_public_key_length == pk_len) _ _
              (λ same. Yields-weaken (Yields-lift _) (λ differs e z.
                (ground arith, memcmp_agrees expected key pk_len differs be bk e (ground arith))))
              (λ other. Yields-pure 1 (λ z. absurd (ground arith))))
            (λ differs k.
              Yields-bind
                (Yields-tolerate allow (differs == 0) ret result_error_public_key_rejected)
                (λ ret' f. Yields-pure _ (λ a. let (n, t) = k (f a) in (refl, n, t)))))

    pub Yields-check_rollback :
        (allow : Bool) (header : AvbVbMetaImageHeader) (location : ℕ) (ret : AvbSlotVerifyResult)
        → Yields I
            (λ _.
              allow ≡ false
              → (stored : ℕ) × (ops.read_rollback_index location ≡ (io_ok, stored))
                × (stored ≤ header.rollback_index))
            (check_rollback ops flags allow header location ret)
    unfolding check_rollback
    Yields-check_rollback allow header location ret = Yields-bind (Yields-or_io _) (λ _ good.
        Yields-weaken (Yields-tolerate allow _ ret _) (λ ret' f a. (
          (ops.read_rollback_index location).1,
          with_ok (ops.read_rollback_index location) good,
          ground arith,
        )))
