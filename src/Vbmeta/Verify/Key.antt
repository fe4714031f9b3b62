-- ===== src/Vbmeta/Verify/Key.antt =====
-- Where the public key of a verified image lies.
use android_boot_image_edito.Common.{
  ◌⊎◌, ℕ, ◌+◌, ◌≤◌, ◌<◌, ◌^◌, ◌≡◌, sym, ◌∙◌, ap, inl, inr, arith, ltb, ◌==◌, Option, none, some,
  Bytes, IsBytes, length, Bool-cases,
}
use android_boot_image_edito.Memory.{ok, bind-eq-ok, read, slice}
use android_boot_image_edito.Util.Compare.{avb_safe_memcmp}
use android_boot_image_edito.Crypto.{Primitives, AvbAlgorithmData, avb_get_algorithm_data}
use android_boot_image_edito.Vbmeta.Header.{AvbVbMetaImageHeader, avb_magic}
use android_boot_image_edito.Vbmeta.Verify.{
  AvbVbMetaVerifyResult, result_ok, Verdict, computed_hash, header_failure, verify_signature,
  verify_hash, with_digest, with_algorithm, verify_blocks, with_header, avb_vbmeta_image_verify,
}
use android_boot_image_edito.Vbmeta.Verify.Authentic.{header_of, verify_exact}

-- A verdict hands out a key only with the result `OK`, and then the header's key.
abbrev pub KeyOf : AvbVbMetaImageHeader → Verdict → Type 0
KeyOf h v =
    (v.public_key ≡ none)
    ⊎ ((v.result ≡ result_ok)
        × (v.public_key
            ≡ some
                (256 + h.authentication_data_block_size + h.public_key_offset, h.public_key_size))
        × (0 < h.public_key_size))

module _ (c : Primitives) (image : Bytes) (h : AvbVbMetaImageHeader) where
  verify_signature-KeyOf :
      (d : AvbAlgorithmData) (v : Verdict) → verify_signature c image h d ≡ ok v → KeyOf h v
  unfolding verify_signature
  verify_signature-KeyOf d v e = ground arith

  verify_hash-KeyOf :
      (d : AvbAlgorithmData) (digest : Bytes) (v : Verdict)
      → verify_hash c image h d digest ≡ ok v
      → KeyOf h v
  unfolding verify_hash
  verify_hash-KeyOf d digest v e = ground (arith, verify_signature-KeyOf d v)

  with_digest-KeyOf :
      (d : AvbAlgorithmData) (o : Option Bytes) (v : Verdict)
      → with_digest c image h d o ≡ ok v
      → KeyOf h v
  unfolding with_digest
  with_digest-KeyOf d none v e = ground arith
  with_digest-KeyOf d (some digest) v e = verify_hash-KeyOf d digest v e

  with_algorithm-KeyOf :
      (o : Option AvbAlgorithmData) (v : Verdict) → with_algorithm c image h o ≡ ok v → KeyOf h v
  unfolding with_algorithm
  with_algorithm-KeyOf none v e = ground arith
  with_algorithm-KeyOf (some d) v e = elim (Bool-cases (h.hash_size == d.hash_len)) [
    | inl same ↦
        let (hb, _, e') = bind-eq-ok (read image 0 256) _ (rw same at e) in
        let (ab, _, e'') =
          bind-eq-ok
            (read image (256 + h.authentication_data_block_size) h.auxiliary_data_block_size) _
            e' in
        with_digest-KeyOf d (computed_hash c h.algorithm_type hb ab) v e''
    | inr differs ↦ ground arith
  ]

  verify_blocks-KeyOf : (v : Verdict) → verify_blocks c image h ≡ ok v → KeyOf h v
  unfolding verify_blocks
  verify_blocks-KeyOf v e =
      ground (arith, with_algorithm-KeyOf (avb_get_algorithm_data h.algorithm_type) v)

  with_header-KeyOf :
      (o : Option AvbVbMetaVerifyResult) (v : Verdict) → with_header c image h o ≡ ok v → KeyOf h v
  unfolding with_header
  with_header-KeyOf none v e = verify_blocks-KeyOf v e
  with_header-KeyOf (some r) v e = ground arith

slice_of_read :
    (image : Bytes) (o n : ℕ) {bs : Bytes} → read image o n ≡ ok bs → bs ≡ slice image o n
unfolding read
slice_of_read image o n e = ground arith

pub verify-KeyOf :
    (c : Primitives) (data_ptr : ℕ) (image : Bytes) (size : ℕ) (v : Verdict)
    → avb_vbmeta_image_verify c data_ptr image size ≡ ok v
    → KeyOf (header_of image) v
unfolding avb_vbmeta_image_verify
verify-KeyOf c data_ptr image size v e = elim (Bool-cases (ltb size 256)) [
  | inl short ↦ ground arith
  | inr long ↦
      let (differs, _, e') = bind-eq-ok (avb_safe_memcmp image avb_magic 4) _ (rw long at e) in
      elim (Bool-cases (differs == 0)) [
        | inl same ↦
            let (src, r, e'') = bind-eq-ok (read image 0 256) _ (rw same at e') in
            with_header-KeyOf c image (header_of image)
              (header_failure data_ptr size (header_of image)) v
              (rw (slice_of_read image 0 256 r) at e'')
        | inr other ↦ ground arith
      ]
]

-- A public key is handed out only with the result `OK`; it is not empty, and lies inside the
-- auxiliary block, and so inside the image.
pub public_key_inside :
    (c : Primitives) (data_ptr : ℕ) (image : Bytes) (size : ℕ) (v : Verdict) (o n : ℕ)
    → IsBytes image
    → data_ptr < 2 ^ 64
    → size < 2 ^ 64
    → size ≤ length image
    → avb_vbmeta_image_verify c data_ptr image size ≡ ok v
    → v.public_key ≡ some (o, n)
    → (v.result ≡ result_ok)
      × (0 < n)
      × (256 + (header_of image).authentication_data_block_size ≤ o)
      × (o + n
          ≤ 256
            + (header_of image).authentication_data_block_size
            + (header_of image).auxiliary_data_block_size)
      × (o + n ≤ size)
public_key_inside c data_ptr image size v o n bytes address word readable e key =
    elim (verify-KeyOf c data_ptr image size v e) [
      | inl nothing ↦ absurd (cc (sym nothing ∙ key))
      | inr (good, place, pos) ↦
          let (v', r, iff) = verify_exact c data_ptr image size bytes address word readable in
          let same : v' ≡ v = ground arith in
          let a = iff.0 (ap (λ (x : Verdict). x.result) same ∙ good) in
          let ranges = a.header.ranges in
          let blocks = a.header.blocks in
          let pair : (o
                ≡ 256
                  + (header_of image).authentication_data_block_size
                  + (header_of image).public_key_offset)
              × (n ≡ (header_of image).public_key_size) =
            ground arith in
          (
            good,
            omega (arith, pair, pos),
            omega (arith, pair),
            omega (arith, pair, ranges.public_key),
            omega (arith, pair, ranges.public_key, blocks.inside),
          )
    ]
