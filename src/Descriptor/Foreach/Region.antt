-- ===== src/Descriptor/Foreach/Region.antt =====
-- The region of the descriptors that an image's header names, and the checks of it.
use android_boot_image_edito.Common.{
  ◌&&◌, suc, ℕ, ◌+◌, ◌-◌, ◌%◌, ◌≤◌, ◌<◌, ◌^◌, ◌≡◌, refl, sym, ap, ◌∙◌, ◌⊎◌, inl, inr, arith, Bool,
  true, false, ltb, ◌==◌, Bool-cases, ==_iff, Bytes, [], ◌∷◌, length, take,
}
use android_boot_image_edito.Descriptor.Foreach.Steps.{aligned, aligned-lem, loop_aborts}
use android_boot_image_edito.Util.Endian.{be64, avb_be64toh}
use android_boot_image_edito.Memory.{ok, slice, read, read-ok}
use android_boot_image_edito.Vbmeta.Header.{avb_magic}
use android_boot_image_edito.Util.Compare.{same_bytes}
use android_boot_image_edito.Descriptor.Foreach.{
  Iteration, returned, aborted, is_aligned, foreach_loop, region_start, region_end, region_outside,
  avb_descriptor_foreach,
}

-- The image is aligned and has a header that puts the descriptors from the offset `start` to the
-- offset `stop`: behind the header and the authentication block, at the descriptors' offset. The
-- first descriptor, if there is one, is aligned.
pub record HasRegion (base : ℕ) (image : Bytes) (start stop : ℕ) : Type 0 where
  pub header_fits : 256 ≤ length image
  pub magic : take 4 image ≡ avb_magic
  pub base_aligned : base % 8 ≡ 0
  pub starts :
      (base + 256 + be64 (slice image 0 256) 12 + be64 (slice image 0 256) 96) % 2 ^ 64
      ≡ base + start
  pub ends : (base + start + be64 (slice image 0 256) 104) % 2 ^ 64 ≡ base + stop
  pub ordered : start ≤ stop
  pub in_image : stop ≤ length image
  pub start_aligned : start < stop → (base + start) % 8 ≡ 0

module _ {base start stop : ℕ} {image : Bytes} (h : HasRegion base image start stop) where
  HasRegion-start : region_start base (slice image 0 256) ≡ base + start
  unfolding region_start
  HasRegion-start = h.starts

  HasRegion-end : region_end base (slice image 0 256) ≡ base + stop
  unfolding region_end
  HasRegion-end = ap (λ n. (n + be64 (slice image 0 256) 104) % 2 ^ 64) HasRegion-start ∙ h.ends

and_true : (a b : Bool) → (a && b) ≡ true → (a ≡ true) × (b ≡ true)
and_true true b e = (refl, e)
and_true false b e = cc e

pub same_bytes_sound : (a b : Bytes) → same_bytes a b ≡ true → a ≡ b
unfolding same_bytes
same_bytes_sound [] [] e = refl
same_bytes_sound [] (y ∷ b) e = cc e
same_bytes_sound (x ∷ a) [] e = cc e
same_bytes_sound (x ∷ a) (y ∷ b) e =
    let (first, others) = and_true (x == y) (same_bytes a b) e in
    cc ((==_iff x y).0 first, same_bytes_sound a b others)

same_bytes_refl : (a : Bytes) → same_bytes a a ≡ true
unfolding same_bytes
same_bytes_refl [] = refl
same_bytes_refl (x ∷ a) =
    let first : (x == x) ≡ true = (==_iff x x).1 refl in rw (first, same_bytes_refl a)

region_inside :
    (base size p q : ℕ)
    → base + size < 2 ^ 64
    → region_outside base ((base + size) % 2 ^ 64) p q ≡ false
    → (base ≤ p) × (p ≤ q) × (q ≤ base + size)
unfolding region_outside
region_inside base size p q w e = ground arith

region_accepted :
    (base size start stop : ℕ)
    → base + size < 2 ^ 64
    → start ≤ stop
    → stop ≤ size
    → region_outside base ((base + size) % 2 ^ 64) (base + start) (base + stop) ≡ false
unfolding region_outside
region_accepted base size start stop w a b = ground arith

not_short : (size : ℕ) → 256 ≤ size → ltb size 256 ≡ false
not_short size h = ground arith

-- With a region, the answer is the loop's.
pub foreach-HasRegion :
    {S : Type 0} (base : ℕ) (image : Bytes) (start stop : ℕ) (f : ℕ → S → S × Bool) (s : S)
    → base + length image < 2 ^ 64
    → HasRegion base image start stop
    → avb_descriptor_foreach base image (length image) f s
      ≡ foreach_loop base image (base + start) (base + stop) f (length image + 1) (base + start) s
unfolding avb_descriptor_foreach
foreach-HasRegion base image start stop f s w h =
    let big : ltb (length image) 256 ≡ false = not_short (length image) (h.header_fits) in
    let header : read image 0 256 ≡ ok (slice image 0 256) = read-ok image 0 256 (h.header_fits) in
    let magic : same_bytes (take 4 image) avb_magic ≡ true =
      ap (λ m. same_bytes m avb_magic) (h.magic) ∙ same_bytes_refl avb_magic in
    let region = region_accepted base (length image) start stop w (h.ordered) (h.in_image) in
    let flat = aligned base (h.base_aligned) in
    rw (big, header, magic, flat, HasRegion-start h, HasRegion-end h, region)

fits_of : (size : ℕ) → ltb size 256 ≡ false → 256 ≤ size
fits_of size e = ground arith

-- The header's region from what the code computes.
region-HasRegion :
    (base : ℕ) (image : Bytes)
    → 256 ≤ length image
    → take 4 image ≡ avb_magic
    → base % 8 ≡ 0
    → (base ≤ region_start base (slice image 0 256))
      × (region_start base (slice image 0 256) ≤ region_end base (slice image 0 256))
      × (region_end base (slice image 0 256) ≤ base + length image)
    → (region_start base (slice image 0 256) < region_end base (slice image 0 256)
        → region_start base (slice image 0 256) % 8 ≡ 0)
    → (start : ℕ) × (stop : ℕ) × HasRegion base image start stop
unfolding region_start region_end be64 avb_be64toh
region-HasRegion base image fits magic flat (a, b, c) first =
    let start = region_start base (slice image 0 256) in
    let stop = region_end base (slice image 0 256) in
    let here : base + (start - base) ≡ start = omega arith in
    (
      start - base,
      stop - base,
      record {
        header_fits = fits;
        magic = magic;
        base_aligned = flat;
        starts = starts base (slice image 0 256) ∙ sym here;
        ends = ends base (slice image 0 256) (start - base) here ∙ omega arith;
        ordered = omega arith;
        in_image = omega arith;
        start_aligned = λ l. rw here (first (omega arith));
      },
    )
  where
    starts :
        (base : ℕ) (header : Bytes)
        → (base + 256 + be64 header 12 + be64 header 96) % 2 ^ 64 ≡ region_start base header
    starts base header = refl

    ends :
        (base : ℕ) (header : Bytes) (start : ℕ)
        → base + start ≡ region_start base header
        → (base + start + be64 header 104) % 2 ^ 64 ≡ region_end base header
    ends base header start e = ap (λ n. (n + be64 header 104) % 2 ^ 64) e

not_inside : {A : Type 0} (p q : ℕ) → ltb p q ≡ false → p < q → A
not_inside p q e l = absurd (ground (arith, e, l))

first_aborts :
    {S : Type 0} (base : ℕ) (image : Bytes) (start stop : ℕ) (f : ℕ → S → S × Bool) (s : S)
    → ltb start stop ≡ true
    → is_aligned start ≡ false
    → foreach_loop base image start stop f (length image + 1) start s ≡ aborted
first_aborts base image start stop f s inside odd =
    let rounds : length image + 1 ≡ suc (length image) = omega arith in
    ap (λ n. foreach_loop base image start stop f n start s) rounds
    ∙ loop_aborts base image start stop f (length image) start s inside odd

-- No callback is called, whatever it is, and the iteration ends this way.
abbrev pub EndsAtOnce : ℕ → Bytes → ((S : Type 0) → S → Iteration S) → Type 1
EndsAtOnce base image end =
    (S : Type 0) (f : ℕ → S → S × Bool) (s : S)
    → avb_descriptor_foreach base image (length image) f s ≡ end S s

-- An image has a region, or no callback is called: it is refused, or not aligned.
pub foreach-cases :
    (base : ℕ) (image : Bytes)
    → base + length image < 2 ^ 64
    → ((start : ℕ) × (stop : ℕ) × HasRegion base image start stop)
      ⊎ (EndsAtOnce base image (λ S s. returned s false) ⊎ EndsAtOnce base image (λ S s. aborted))
unfolding avb_descriptor_foreach
foreach-cases base image w =
    let header = slice image 0 256 in
    elim (Bool-cases (ltb (length image) 256)) [
      | inl short ↦ inr (inl (λ S f s. rw short))
      | inr long ↦
          let fits : 256 ≤ length image = fits_of (length image) long in
          let header_read : read image 0 256 ≡ ok header = read-ok image 0 256 fits in
          elim (Bool-cases (same_bytes (take 4 image) avb_magic)) [
            | inr other ↦ inr (inl (λ S f s. rw (long, header_read, other)))
            | inl same ↦ elim (Bool-cases (is_aligned base)) [
              | inr odd ↦ inr (inr (λ S f s. rw (long, header_read, same, odd)))
              | inl flat ↦
                  elim (Bool-cases (
                    region_outside base ((base + length image) % 2 ^ 64) (region_start base header)
                      (region_end base header))) [
                        | inl out ↦ inr (inl (λ S f s. rw (long, header_read, same, flat, out)))
                        | inr within ↦
                            let a =
                              region_inside base (length image) (region_start base header)
                                (region_end base header) w within in
                            let magic = same_bytes_sound (take 4 image) avb_magic same in
                            elim (Bool-cases
                              (ltb (region_start base header) (region_end base header))) [
                                | inr empty ↦ inl (
                                    region-HasRegion base image fits magic (aligned-lem base flat) a
                                      (λ l. not_inside _ _ empty l))
                                | inl some_bytes ↦
                                    elim (Bool-cases (is_aligned (region_start base header))) [
                                      | inl even ↦ inl (
                                          region-HasRegion base image fits magic
                                            (aligned-lem base flat) a
                                            (λ l. aligned-lem (region_start base header) even))
                                      | inr odd ↦ inr (
                                          inr (λ S f s.
                                            rw (long, header_read, same, flat, within)
                                              (first_aborts base image (region_start base header)
                                                (region_end base header) f s some_bytes odd)))
                                    ]
                              ]
                      ]
            ]
          ]
    ]
