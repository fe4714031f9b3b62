-- ===== src/Vbmeta/Verify/Authentic.antt =====
-- `avb_vbmeta_image_verify` as a whole: it answers `OK` exactly for authentic images.
use android_boot_image_edito.Common.{
  ltb→lt, ℕ, ◌≤◌, ◌<◌, ◌^◌, ◌≡◌, ◌≢◌, refl, sym, ◌∙◌, ◌↔◌, inl, inr, arith, ltb, Option, none, some,
  Bytes, IsBytes, length, take, Bool-cases,
}
use android_boot_image_edito.Memory.{ok, slice, read-ok}
use android_boot_image_edito.Util.Endian.Laws.{be64-lt}
use android_boot_image_edito.Util.Compare.{safe_memcmp_equality}
use android_boot_image_edito.Crypto.{Primitives}
use android_boot_image_edito.Vbmeta.Header.{
  AvbVbMetaImageHeader, avb_magic, avb_vbmeta_image_header_to_host_byte_order,
}
use android_boot_image_edito.Vbmeta.Verify.{
  AvbVbMetaVerifyResult, result_ok, invalid_vbmeta_header, without_key, header_failure, with_header,
  avb_vbmeta_image_verify,
}
use android_boot_image_edito.Vbmeta.Verify.Checks.{FieldsFit, HeaderValid, header_failure_iff}
use android_boot_image_edito.Vbmeta.Verify.Signed.{IsSigned, Decides, verify_blocks-Decides}

-- The header of an image in host order.
abbrev pub header_of : Bytes → AvbVbMetaImageHeader
header_of image = avb_vbmeta_image_header_to_host_byte_order (slice image 0 256)

-- What the format asks of an image of `length` bytes at address `data_ptr`.
pub record IsAuthentic (c : Primitives) (data_ptr : ℕ) (image : Bytes) (size : ℕ) : Type 0 where
  pub long : 256 ≤ size
  pub magic : take 4 image ≡ avb_magic
  pub header : HeaderValid data_ptr size (header_of image)
  pub signed : IsSigned c image (header_of image)

header_of-FieldsFit : (image : Bytes) → FieldsFit (header_of image)
unfolding avb_vbmeta_image_header_to_host_byte_order
header_of-FieldsFit image =
    let src : Bytes = slice image 0 256 in
    record {
      authentication_data_block_size = be64-lt src 12;
      auxiliary_data_block_size = be64-lt src 20;
      hash_offset = be64-lt src 32;
      hash_size = be64-lt src 40;
      signature_offset = be64-lt src 48;
      signature_size = be64-lt src 56;
      public_key_offset = be64-lt src 64;
      public_key_size = be64-lt src 72;
      public_key_metadata_offset = be64-lt src 80;
      public_key_metadata_size = be64-lt src 88;
    }

failures :
    (data_ptr n : ℕ) (h : AvbVbMetaImageHeader) (r : AvbVbMetaVerifyResult)
    → header_failure data_ptr n h ≡ some r
    → r ≢ result_ok
unfolding header_failure
failures data_ptr n h r e = ground arith

module _ (c : Primitives) (data_ptr : ℕ) (image : Bytes) (size : ℕ) (bytes : IsBytes image)
    (address : data_ptr < 2 ^ 64) (word : size < 2 ^ 64) (readable : size ≤ length image) where
  refused :
      (r : AvbVbMetaVerifyResult)
      → r ≢ result_ok
      → ¬ (IsAuthentic c data_ptr image size)
      → Decides (ok (without_key r)) (IsAuthentic c data_ptr image size)
  refused r ne no_image = (without_key r, refl, ((λ e. absurd (ne e)), λ s. absurd (no_image s)))

  header_iff :
      (header_failure data_ptr size (header_of image) ≡ none)
      ↔ HeaderValid data_ptr size (header_of image)
  header_iff =
      header_failure_iff data_ptr size (header_of image) (header_of-FieldsFit image) address word

  with_header-Decides :
      256 ≤ size
      → take 4 image ≡ avb_magic
      → (o : Option AvbVbMetaVerifyResult) → header_failure data_ptr size (header_of image) ≡ o
      → Decides (with_header c image (header_of image) o) (IsAuthentic c data_ptr image size)
  unfolding with_header
  with_header-Decides long magic none e =
      let valid = header_iff.0 e in
      let (v, r, iff) =
        verify_blocks-Decides c image (header_of image) bytes (omega arith) valid.ranges in
      (
        v,
        r,
        (
          (λ t. record { long = long; magic = magic; header = valid; signed = iff.0 t }),
          λ a. iff.1 a.signed,
        ),
      )
  with_header-Decides long magic (some r) e =
      refused r (failures data_ptr size (header_of image) r e)
        (λ a. absurd (cc (sym e ∙ header_iff.1 a.header)))

  -- On an image of `size` readable bytes at an address of 64 bits the verification ends, reads
  -- nothing outside the image, and answers `OK` exactly when the image is authentic: it is long
  -- enough, has the magic, its header is valid at true sums, the stored hash is the digest of
  -- header and auxiliary block, and the embedded key's signature of that hash is good.
  pub verify_exact :
      Decides (avb_vbmeta_image_verify c data_ptr image size) (IsAuthentic c data_ptr image size)
  unfolding avb_vbmeta_image_verify
  verify_exact = elim (Bool-cases (ltb size 256)) [
    | inl short ↦ rw short (
        refused invalid_vbmeta_header (λ t. cc t)
          (λ a. absurd (omega (arith, ltb→lt size 256 short, a.long))))
    | inr long ↦
        let enough : 256 ≤ size = ground arith in
        rw long
          (elim (safe_memcmp_equality image avb_magic 4 (omega arith) (omega arith) bytes
            (omega arith)) [
              | inl (e, same) ↦
                  rw (e, read-ok image 0 256 (omega arith))
                    (with_header-Decides enough same
                      (header_failure data_ptr size (header_of image)) refl)
              | inr (e, differs) ↦
                  rw e (refused invalid_vbmeta_header (λ t. cc t) (λ a. absurd (differs a.magic)))
            ])
  ]
