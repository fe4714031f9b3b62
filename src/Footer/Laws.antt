-- ===== src/Footer/Laws.antt =====
-- Which footers are accepted, and that the fields are read where the format puts them.
use android_boot_image_edito.Common.{
  subst, not, ◌==◌, if◌then◌else◌, sym, ℕ, ◌≤◌, ◌<◌, ◌^◌, ◌≡◌, refl, ◌↔◌, ◌∙◌, ap, inl, inr, arith,
  Bool, true, false, ltb, Bytes, IsBytes, IsBytes-append, [], ◌++◌, length, take, take_all,
}
use android_boot_image_edito.Memory.{ok, slice, read-ok, slice-IsBytes, length-slice}
use android_boot_image_edito.Util.Endian.{be32, be64}
use android_boot_image_edito.Util.Endian.Fields.{put32, put64, field32, field64}
use android_boot_image_edito.Util.Compare.{avb_safe_memcmp, safe_memcmp_equality}
use android_boot_image_edito.Footer.{
  AvbFooter, avb_footer_magic, footer_fields, avb_footer_validate_and_byteswap,
}

-- What the check of a footer means.
abbrev pub IsFooter : AvbFooter → Type 0
IsFooter f = (f.magic ≡ avb_footer_magic) × (f.version_major ≤ 1)

-- The answer, once the comparison of the magic is known.
answer_for : ℕ → ℕ → Bool
answer_for differs major = if not (differs == 0) then false else if ltb 1 major then false else true

answer_differs : (major : ℕ) → answer_for 1 major ≡ false
unfolding answer_for
answer_differs major = refl

answer_same : (major : ℕ) → (answer_for 0 major ≡ true) ↔ (major ≤ 1)
unfolding answer_for
answer_same major = ground arith

module _ (src : Bytes) (b : IsBytes src) (h : 64 ≤ length src) where
  copy : Bytes
  copy = slice src 0 64

  length-magic : length (slice copy 0 4) ≡ 4
  unfolding copy
  length-magic = length-slice (slice src 0 64) 0 4 (omega (arith, length-slice src 0 64 h))

  validate-answer :
      (r : ℕ)
      → avb_safe_memcmp (slice copy 0 4) avb_footer_magic 4 ≡ ok r
      → avb_footer_validate_and_byteswap src
        ≡ ok (footer_fields copy, answer_for r (footer_fields copy).version_major)
  unfolding avb_footer_validate_and_byteswap answer_for copy
  validate-answer r e = rw (read-ok src 0 64 h, e)

  -- On 64 readable bytes the function reads no others, fills `*dest` with the fields whatever it
  -- answers, and answers true exactly when the magic is "AVBf" and the major version is at most 1.
  pub byteswap_accepts :
      (answer : Bool) × (avb_footer_validate_and_byteswap src
        ≡ ok (footer_fields (slice src 0 64), answer))
      × ((answer ≡ true) ↔ IsFooter (footer_fields (slice src 0 64)))
  unfolding copy footer_fields
  byteswap_accepts =
      let major : ℕ = be32 (slice src 0 64) 4 in
      let all : take 4 (slice copy 0 4) ≡ slice copy 0 4 =
        take_all 4 (slice copy 0 4) (omega (arith, length-magic)) in
      elim (safe_memcmp_equality (slice copy 0 4) avb_footer_magic 4 (omega (arith, length-magic))
        (omega arith) (slice-IsBytes copy 0 4 (slice-IsBytes src 0 64 b)) (omega arith)) [
          | inl (e, same) ↦ (
            answer_for 0 major,
            validate-answer 0 e,
            ((λ t. (sym all ∙ same, (answer_same major).0 t)), λ t. (answer_same major).1 t.1),
          )
          | inr (e, differs) ↦ (
            answer_for 1 major,
            validate-answer 1 e,
            ((λ t. absurd (cc (sym t ∙ answer_differs major))), λ t. absurd (differs (all ∙ t.0))),
          )
        ]

-- The bytes of a footer: the fields in the order of the struct, in network byte order.
abbrev pub footer_layout : AvbFooter → Bytes
footer_layout f =
    avb_footer_magic
    ++ put32 f.version_major (
        put32 f.version_minor
          (put64 f.original_image_size (put64 f.vbmeta_offset (put64 f.vbmeta_size f.reserved))))

pub record FitsFooter (f : AvbFooter) : Type 0 where
  pub magic : f.magic ≡ avb_footer_magic
  pub version_major : f.version_major ≤ 1
  pub version_minor : f.version_minor < 2 ^ 32
  pub original_image_size : f.original_image_size < 2 ^ 64
  pub vbmeta_offset : f.vbmeta_offset < 2 ^ 64
  pub vbmeta_size : f.vbmeta_size < 2 ^ 64
  pub reserved : length f.reserved ≡ 28
  pub reserved_bytes : IsBytes f.reserved

module _ (f : AvbFooter) (h : FitsFooter f) where
  version_major-read : be32 (footer_layout f) 4 ≡ f.version_major
  unfolding be32
  version_major-read = field32 f.version_major (omega arith)

  version_minor-read : be32 (footer_layout f) 8 ≡ f.version_minor
  unfolding be32
  version_minor-read = field32 f.version_minor h.version_minor

  original_image_size-read : be64 (footer_layout f) 12 ≡ f.original_image_size
  unfolding be64
  original_image_size-read = field64 f.original_image_size h.original_image_size

  vbmeta_offset-read : be64 (footer_layout f) 20 ≡ f.vbmeta_offset
  unfolding be64
  vbmeta_offset-read = field64 f.vbmeta_offset h.vbmeta_offset

  vbmeta_size-read : be64 (footer_layout f) 28 ≡ f.vbmeta_size
  unfolding be64
  vbmeta_size-read = field64 f.vbmeta_size h.vbmeta_size

  footer_layout-fields : footer_fields (footer_layout f) ≡ f
  unfolding footer_fields
  footer_layout-fields = λ i. record {
    magic = sym h.magic i;
    version_major = version_major-read i;
    version_minor = version_minor-read i;
    original_image_size = original_image_size-read i;
    vbmeta_offset = vbmeta_offset-read i;
    vbmeta_size = vbmeta_size-read i;
    reserved = take_all 28 f.reserved (omega arith) i;
  }

  footer_layout-IsBytes : IsBytes (footer_layout f)
  footer_layout-IsBytes =
      IsBytes-append (footer_layout (record f { reserved = [] })) f.reserved (omega arith)
        h.reserved_bytes

  length-footer_layout : length (footer_layout f) ≡ 64
  length-footer_layout = omega arith

  -- Reading back what the format writes gives the footer, for fields that fit their widths.
  pub footer_roundtrip : avb_footer_validate_and_byteswap (footer_layout f) ≡ ok (f, true)
  footer_roundtrip =
      let whole : slice (footer_layout f) 0 64 ≡ footer_layout f =
        take_all 64 (footer_layout f) (omega (arith, length-footer_layout)) in
      let same : footer_fields (slice (footer_layout f) 0 64) ≡ f =
        ap footer_fields whole ∙ footer_layout-fields in
      let (answer, e, iff) =
        byteswap_accepts (footer_layout f) footer_layout-IsBytes
          (omega (arith, length-footer_layout)) in
      let accepted : answer ≡ true = iff.1 (subst IsFooter (sym same) (h.magic, h.version_major)) in
      e ∙ rw (same, accepted)
