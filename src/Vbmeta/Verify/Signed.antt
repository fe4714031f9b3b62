-- ===== src/Vbmeta/Verify/Signed.antt =====
-- The part of the verification behind the header's checks: hash and signature.
use mathlib.Core.Option
use native.Mathlib.Decide.{ℕ_discrete}
use android_boot_image_edito.Common.{
  zero, suc, ℕ, ◌+◌, ◌≤◌, ◌≡◌, refl, sym, ◌∙◌, ap, ◌≢◌, ◌↔◌, inl, inr, arith, Bool, true, false,
  not, ltb, ◌==◌, if◌then◌else◌, Option, none, some, Bytes, IsBytes, IsBytes-drop, [], ◌∷◌, length,
  length-drop, take, take_all, drop, Bool-cases, Option-cases, subst,
}
use android_boot_image_edito.Memory.{Run, ok, slice, read-ok}
use android_boot_image_edito.Util.Compare.{safe_memcmp_equality}
use android_boot_image_edito.Crypto.{Primitives, AvbAlgorithmData, avb_get_algorithm_data}
use android_boot_image_edito.Crypto.Padding.{digest_bytes, algorithm_fills_key}
use android_boot_image_edito.Vbmeta.Header.{AvbVbMetaImageHeader}
use android_boot_image_edito.Vbmeta.Verify.{
  AvbVbMetaVerifyResult, result_ok, ok_not_signed, invalid_vbmeta_header, hash_mismatch,
  signature_mismatch, Verdict, without_key, computed_hash, verify_signature, verify_hash,
  with_digest, with_algorithm, verify_blocks,
}
use android_boot_image_edito.Vbmeta.Verify.Checks.{RangesFit}

-- The digest that an algorithm wants over the header block and the auxiliary block.
abbrev pub expected_digest : Primitives → ℕ → Bytes → Bytes → Bytes
expected_digest c algorithm header_block auxiliary_block =
    if ltb algorithm 4
    then c.sha256 (header_block ∷ auxiliary_block ∷ [])
    else c.sha512 (header_block ∷ auxiliary_block ∷ [])

-- The parts of an image that its header names.
module _ (image : Bytes) (h : AvbVbMetaImageHeader) where
  abbrev pub auxiliary_block : Bytes
  auxiliary_block = slice image (256 + h.authentication_data_block_size) h.auxiliary_data_block_size

  abbrev pub stored_hash : Bytes
  stored_hash = slice image (256 + h.hash_offset) h.hash_size

  abbrev pub stored_signature : Bytes
  stored_signature = slice image (256 + h.signature_offset) h.signature_size

  abbrev pub embedded_key : Bytes
  embedded_key =
      slice image (256 + h.authentication_data_block_size + h.public_key_offset) h.public_key_size

-- The stored hash is the digest of header and auxiliary block under the header's algorithm, and the
-- embedded key's signature of it is good.
pub record IsSigned (c : Primitives) (image : Bytes) (h : AvbVbMetaImageHeader) : Type 0 where
  pub signing : 1 ≤ h.algorithm_type
  pub algorithm : AvbAlgorithmData
  pub known : avb_get_algorithm_data h.algorithm_type ≡ some algorithm
  pub hash_size : h.hash_size ≡ digest_bytes h.algorithm_type
  pub hash :
      stored_hash image h
      ≡ expected_digest c h.algorithm_type (slice image 0 256) (auxiliary_block image h)
  pub signature :
      c.avb_rsa_verify
        (embedded_key image h)
        (stored_signature image h)
        (stored_hash image h)
        algorithm.padding
      ≡ true

-- The computation ends, reads nothing outside the image, and its result is `OK` exactly when `P`.
abbrev pub Decides : Run Verdict → Type 0 → Type 0
Decides r P = (v : Verdict) × (r ≡ ok v) × ((v.result ≡ result_ok) ↔ P)

computed_hash-expected :
    (c : Primitives) (algorithm : ℕ) (hb ab : Bytes)
    → 1 ≤ algorithm
    → algorithm ≤ 6
    → computed_hash c algorithm hb ab ≡ some (expected_digest c algorithm hb ab)
unfolding computed_hash
computed_hash-expected c zero hb ab lo hi = absurd (omega arith)
computed_hash-expected c (suc zero) hb ab lo hi = refl
computed_hash-expected c (suc (suc zero)) hb ab lo hi = refl
computed_hash-expected c (suc (suc (suc zero))) hb ab lo hi = refl
computed_hash-expected c (suc (suc (suc (suc zero)))) hb ab lo hi = refl
computed_hash-expected c (suc (suc (suc (suc (suc zero))))) hb ab lo hi = refl
computed_hash-expected c (suc (suc (suc (suc (suc (suc zero)))))) hb ab lo hi = refl
computed_hash-expected c (suc (suc (suc (suc (suc (suc (suc n))))))) hb ab lo hi =
    absurd (omega arith)

signature_answer :
    (good : Bool) (key : Option (ℕ × ℕ))
    → Decides
        (ok (
          if not good
          then without_key signature_mismatch
          else record { result = result_ok; public_key = key }))
        (good ≡ true)
signature_answer true key =
    (record { result = result_ok; public_key = key }, refl, ((λ e. refl), λ e. refl))
signature_answer false key =
    (without_key signature_mismatch, refl, ((λ e. absurd (cc e)), λ e. absurd (cc e)))

module _ (c : Primitives) (image : Bytes) (h : AvbVbMetaImageHeader) (bytes : IsBytes image)
    (inside : 256 + h.authentication_data_block_size + h.auxiliary_data_block_size ≤ length image)
    (ranges : RangesFit h) where
  verify_signature-Decides :
      (d : AvbAlgorithmData)
      → Decides (verify_signature c image h d) (
          c.avb_rsa_verify
            (embedded_key image h)
            (stored_signature image h)
            (stored_hash image h)
            d.padding
          ≡ true)
  unfolding verify_signature
  verify_signature-Decides d =
      rw
        (
          read-ok image (256 + h.authentication_data_block_size + h.public_key_offset)
              h.public_key_size (omega arith),
          read-ok image (256 + h.signature_offset) h.signature_size (omega arith),
          read-ok image (256 + h.hash_offset) h.hash_size (omega arith),
        )
        (signature_answer
          (c.avb_rsa_verify (embedded_key image h) (stored_signature image h) (stored_hash image h)
            d.padding)
          (if ltb 0 h.public_key_size
            then some
                (256 + h.authentication_data_block_size + h.public_key_offset, h.public_key_size)
            else none))

  verify_hash-Decides :
      (d : AvbAlgorithmData) (digest : Bytes)
      → IsBytes digest
      → length digest ≡ h.hash_size
      → Decides (verify_hash c image h d digest) (
          (stored_hash image h ≡ digest)
          × (c.avb_rsa_verify
                (embedded_key image h)
                (stored_signature image h)
                (stored_hash image h)
                d.padding
              ≡ true))
  unfolding verify_hash
  verify_hash-Decides d digest b len =
      let whole : take h.hash_size digest ≡ digest = take_all h.hash_size digest (omega arith) in
      elim (safe_memcmp_equality (drop (256 + h.hash_offset) image) digest h.hash_size
        (omega (arith, length-drop (256 + h.hash_offset) image)) (omega arith)
        (IsBytes-drop (256 + h.hash_offset) image bytes) b) [
          | inl (e, same) ↦
              let (v, r, iff) = verify_signature-Decides d in
              (v, rw e r, ((λ t. (same ∙ whole, iff.0 t)), λ t. iff.1 t.1))
          | inr (e, differs) ↦ (
            without_key hash_mismatch,
            rw e,
            ((λ t. absurd (cc t)), λ t. absurd (differs (t.0 ∙ sym whole))),
          )
        ]

  known_range :
      (d : AvbAlgorithmData)
      → avb_get_algorithm_data h.algorithm_type ≡ some d
      → h.algorithm_type ≤ 6
  unfolding avb_get_algorithm_data
  known_range d e = ground arith

  digest-length :
      (us : Bytes)
      → length (expected_digest c h.algorithm_type (slice image 0 256) us)
        ≡ digest_bytes h.algorithm_type
  digest-length us = elim (Bool-cases (ltb h.algorithm_type 4)) [
    | inl e ↦ rw e (c.length-sha256 (slice image 0 256 ∷ us ∷ []))
    | inr e ↦ rw e (c.length-sha512 (slice image 0 256 ∷ us ∷ []))
  ]

  digest-IsBytes :
      (us : Bytes) → IsBytes (expected_digest c h.algorithm_type (slice image 0 256) us)
  digest-IsBytes us = elim (Bool-cases (ltb h.algorithm_type 4)) [
    | inl e ↦ rw e (c.sha256-IsBytes (slice image 0 256 ∷ us ∷ []))
    | inr e ↦ rw e (c.sha512-IsBytes (slice image 0 256 ∷ us ∷ []))
  ]

  with_algorithm-hash :
      (d : AvbAlgorithmData)
      → 1 ≤ h.algorithm_type
      → avb_get_algorithm_data h.algorithm_type ≡ some d
      → h.hash_size ≡ d.hash_len
      → with_algorithm c image h (some d)
        ≡ verify_hash c image h d
            (expected_digest c h.algorithm_type (slice image 0 256) (auxiliary_block image h))
  unfolding with_algorithm with_digest
  with_algorithm-hash d lo e size =
      let equal : (h.hash_size == d.hash_len) ≡ true = ground arith in
      rw
        (
          equal,
          read-ok image 0 256 (omega arith),
          read-ok image (256 + h.authentication_data_block_size) h.auxiliary_data_block_size
              (omega arith),
        )
        (ap (with_digest c image h d) (
          computed_hash-expected c h.algorithm_type (slice image 0 256) (auxiliary_block image h) lo
            (known_range d e)))

  not-IsSigned :
      (r : AvbVbMetaVerifyResult)
      → r ≢ result_ok
      → ¬ (IsSigned c image h)
      → Decides (ok (without_key r)) (IsSigned c image h)
  not-IsSigned r ne no_sig = (without_key r, refl, ((λ e. absurd (ne e)), λ s. absurd (no_sig s)))

  with_known :
      (d : AvbAlgorithmData)
      → 1 ≤ h.algorithm_type
      → avb_get_algorithm_data h.algorithm_type ≡ some d
      → Decides (with_algorithm c image h (some d)) (IsSigned c image h)
  with_known d lo e = elim (ℕ_discrete h.hash_size d.hash_len) [
    | yes size ↦
        let digest =
          expected_digest c h.algorithm_type (slice image 0 256) (auxiliary_block image h) in
        let sizes = algorithm_fills_key h.algorithm_type d lo e in
        let (v, r, iff) =
          verify_hash-Decides d digest (digest-IsBytes (auxiliary_block image h))
            (omega (arith, digest-length (auxiliary_block image h), sizes)) in
        (
          v,
          with_algorithm-hash d lo e size ∙ r,
          (
            (λ t.
                let (same, good) = iff.0 t in
                record {
                  signing = lo;
                  algorithm = d;
                  known = e;
                  hash_size = omega (arith, sizes);
                  hash = same;
                  signature = good;
                }),
            λ s. iff.1 (
              s.hash,
              let agree : s.algorithm ≡ d = Option.some-injective s.algorithm d (sym s.known ∙ e) in
                  subst
                    (λ a.
                      c.avb_rsa_verify (embedded_key image h) (stored_signature image h)
                        (stored_hash image h) a.padding
                      ≡ true)
                    agree s.signature,
            ),
          ),
        )
    | no differ ↦
        let unequal : (h.hash_size == d.hash_len) ≡ false = ground arith in
        let (v, r, iff) =
          not-IsSigned invalid_vbmeta_header (λ t. cc t)
            (λ s.
              differ (omega (arith, s.hash_size, algorithm_fills_key h.algorithm_type d lo e))) in
        (v, unfold with_algorithm in rw unequal r, iff)
  ]

  -- Behind the header's checks the verification ends, reads nothing outside the image, and answers
  -- `OK` exactly for a signed image.
  pub verify_blocks-Decides : Decides (verify_blocks c image h) (IsSigned c image h)
  unfolding verify_blocks with_algorithm
  verify_blocks-Decides = elim (ℕ_discrete h.algorithm_type 0) [
    | yes unsigned ↦
        let is_none : (h.algorithm_type == 0) ≡ true = ground arith in
        rw is_none (not-IsSigned ok_not_signed (λ t. cc t) (λ s. absurd (omega (arith, s.signing))))
    | no signed ↦
        let not_none : (h.algorithm_type == 0) ≡ false = ground arith in
        rw not_none (elim (Option-cases (avb_get_algorithm_data h.algorithm_type)) [
          | inl e ↦
              rw e (
                not-IsSigned invalid_vbmeta_header (λ t. cc t) (λ s. absurd (cc (sym e ∙ s.known))))
          | inr (d, e) ↦ rw e (with_known d (omega arith) e)
        ])
  ]
