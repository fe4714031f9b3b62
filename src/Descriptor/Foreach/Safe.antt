-- ===== src/Descriptor/Foreach/Safe.antt =====
-- What holds after an iteration with any callback: a property that the callback keeps for every
-- descriptor that starts in the region. The model does not run out of fuel.
use android_boot_image_edito.Common.{
  ℕ, zero, suc, ◌+◌, ◌-◌, ◌%◌, ◌≤◌, ◌<◌, ◌^◌, ◌≡◌, refl, ◌∙◌, inl, inr, arith, Bool, true, false,
  ltb, Bool-cases, Option-cases, Option, ◌⊎◌, none, some, Bytes, List, [], ◌∷◌, length, take, All,
  replicate, not, ◌==◌, if◌then◌else◌,
}
use native.Mathlib.Decide.{dec_lt}
use android_boot_image_edito.Memory.{Run, ok, fault, slice, read, read-ok}
use android_boot_image_edito.Util.Checked.{avb_safe_add_to, avb_safe_add}
use android_boot_image_edito.Descriptor.Foreach.{
  Iteration, returned, outside, aborted, out_of_fuel, is_aligned, bytes_following, total_size,
  foreach_loop, region_outside, region_start, region_end, avb_descriptor_foreach,
  avb_descriptor_get_all, AllDescriptors, all_got, all_outside, all_aborted, all_out_of_fuel,
  set_all, count_descriptors, set_descriptors, SetDescriptorData, store,
}
use android_boot_image_edito.Heap.{Heap, malloc}
use android_boot_image_edito.Vbmeta.Header.{avb_magic}
use android_boot_image_edito.Util.Compare.{same_bytes}
use android_boot_image_edito.Descriptor.Foreach.Region.{HasRegion, foreach-HasRegion, foreach-cases}

abbrev pub Safe : {S : Type 0} → (S → Type 0) → Iteration S → Type 0
Safe P (returned s answer) = P s
Safe P outside = Unit
Safe P aborted = Unit
Safe P out_of_fuel = ⊥

Run-cases : {A : Type 0} (r : Run A) → (r ≡ fault) ⊎ ((a : A) × (r ≡ ok a))
Run-cases fault = inl refl
Run-cases (ok a) = inr (a, refl)

-- The checks let sizes pass that move on and stay in the region.
total_size-bounds :
    (desc_start desc_end p n size : ℕ)
    → total_size desc_start desc_end p n ≡ some size
    → (16 ≤ size) × (size < 2 ^ 64) × ((size + p) % 2 ^ 64 ≤ desc_end)
unfolding total_size avb_safe_add avb_safe_add_to
total_size-bounds desc_start desc_end p n size e = ground (arith, e)

add_to-fits :
    (p size : ℕ)
    → p < 2 ^ 64
    → size < 2 ^ 64
    → (avb_safe_add_to p size).1 ≡ true
    → (avb_safe_add_to p size).0 ≡ p + size
unfolding avb_safe_add_to
add_to-fits p size a b e = ground (arith, e)

inside_region :
    (base off size stop : ℕ)
    → base + stop < 2 ^ 64
    → size < 2 ^ 64
    → (avb_safe_add_to (base + off) size).1 ≡ true
    → (size + (base + off)) % 2 ^ 64 ≤ base + stop
    → off ≤ stop
    → off + size ≤ stop
unfolding avb_safe_add_to
inside_region base off size stop w b fits c hi = ground (arith, fits)

before : (base off stop : ℕ) → ltb (base + off) (base + stop) ≡ true → off < stop
before base off stop e = ground (arith, e)

module _ {S : Type 0} (P : S → Type 0) (base : ℕ) (image : Bytes) (start stop : ℕ)
    (f : ℕ → S → S × Bool) (keeps : (o : ℕ) (s : S) → start ≤ o → o < stop → P s → P (f o s).0)
    (word : base + stop < 2 ^ 64) where
  -- The end of a round, when the callback has answered.
  loop-Safe :
      (fuel off : ℕ) (s : S)
      → start ≤ off
      → off ≤ stop
      → stop - off < fuel
      → P s
      → Safe P (foreach_loop base image (base + start) (base + stop) f fuel (base + off) s)
  unfolding foreach_loop
  loop-Safe zero off s lo hi enough h = absurd (omega arith)
  loop-Safe (suc fuel) off s lo hi enough h = elim (Bool-cases (ltb (base + off) (base + stop))) [
    | inr out ↦ rw (out, foreach_loop) h
    | inl inside ↦ elim (Bool-cases (is_aligned (base + off))) [
      | inr odd ↦ rw (inside, odd, foreach_loop) tt
      | inl even ↦ elim (Run-cases (bytes_following base image (base + off))) [
        | inl e ↦ rw (inside, even, e, foreach_loop) tt
        | inr (n, e) ↦
            elim (Option-cases (total_size (base + start) (base + stop) (base + off) n)) [
              | inl refused ↦ rw (inside, even, e, refused, foreach_loop) h
              | inr (size, t) ↦
                  let off_lem : base + off - base ≡ off = omega arith in
                  let kept : P ((f (base + off - base) s).0) =
                    rw off_lem (keeps off s lo (before base off stop inside) h) in
                  elim (Bool-cases ((f (base + off - base) s).1)) [
                    | inr ends ↦ rw (inside, even, e, t, ends, foreach_loop) kept
                    | inl goes ↦ elim (Bool-cases ((avb_safe_add_to (base + off) size).1)) [
                      | inr wraps ↦ rw (inside, even, e, t, goes, wraps, foreach_loop) kept
                      | inl fits ↦
                          let (a, b, c) = total_size-bounds _ _ _ n size t in
                          let place = add_to-fits (base + off) size (omega arith) b fits in
                          let place' : (avb_safe_add_to (base + off) size).0 ≡ base + (off + size) =
                            place ∙ omega arith in
                          let within : off + size ≤ stop =
                            inside_region base off size stop word b fits c hi in
                          rw (inside, even, e, t, goes, fits, place', foreach_loop)
                            (loop-Safe fuel (off + size) _ (omega arith) within (omega arith) kept)
                    ]
                  ]
            ]
      ]
    ]
  ]

no_wrap :
    (base size p q : ℕ)
    → base < 2 ^ 64
    → size < 2 ^ 64
    → 2 ^ 64 ≤ base + size
    → region_outside base ((base + size) % 2 ^ 64) p q ≡ true
unfolding region_outside
no_wrap base size p q a b c = ground arith

not_short : (size : ℕ) → ltb size 256 ≡ false → 256 ≤ size
not_short size e = ground (arith, e)

wrapped-foreach :
    {S : Type 0} (base : ℕ) (image : Bytes) (f : ℕ → S → S × Bool) (s : S)
    → base < 2 ^ 64
    → length image < 2 ^ 64
    → 2 ^ 64 ≤ base + length image
    → (avb_descriptor_foreach base image (length image) f s ≡ returned s false)
      ⊎ (avb_descriptor_foreach base image (length image) f s ≡ aborted)
unfolding avb_descriptor_foreach
wrapped-foreach base image f s a b c = elim (Bool-cases (ltb (length image) 256)) [
  | inl short ↦ inl (rw short)
  | inr long ↦
      let header_read : read image 0 256 ≡ ok (slice image 0 256) =
        read-ok image 0 256 (not_short (length image) long) in
      elim (Bool-cases (same_bytes (take 4 image) avb_magic)) [
        | inr other ↦ inl (rw (long, header_read, other))
        | inl same ↦ elim (Bool-cases (is_aligned base)) [
          | inr odd ↦ inr (rw (long, header_read, same, odd))
          | inl even ↦ inl (
              rw (
                long,
                header_read,
                same,
                even,
                no_wrap base (length image) (region_start base (slice image 0 256))
                    (region_end base (slice image 0 256)) a b c,
              ))
        ]
      ]
]

-- The offset is in the region that the image's header names.
pub record InRegion (base : ℕ) (image : Bytes) (o : ℕ) : Type 0 where
  pub start : ℕ
  pub stop : ℕ
  pub region : HasRegion base image start stop
  pub behind_start : start ≤ o
  pub before_stop : o < stop

pub foreach-Safe :
    {S : Type 0} (P : S → Type 0) (base : ℕ) (image : Bytes) (f : ℕ → S → S × Bool) (s : S)
    → base < 2 ^ 64
    → length image < 2 ^ 64
    → ((o : ℕ) (s : S) → InRegion base image o → P s → P (f o s).0)
    → P s
    → Safe P (avb_descriptor_foreach base image (length image) f s)
foreach-Safe {S} P base image f s a b keeps h = elim (dec_lt (base + length image) (2 ^ 64)) [
  | no wraps ↦ elim (wrapped-foreach base image f s a b (omega arith)) [
    | inl e ↦ rw e h
    | inr e ↦ rw e tt
  ]
  | yes w ↦ elim (foreach-cases base image w) [
    | inr (inl rejected) ↦ rw (rejected S f s) h
    | inr (inr aborts) ↦ rw (aborts S f s) tt
    | inl (start, stop, r) ↦ rw (foreach-HasRegion base image start stop f s w r) (
        loop-Safe P base image start stop f
          (λ o s lo hi. keeps o s (record {
            start = start;
            stop = stop;
            region = r;
            behind_start = lo;
            before_stop = hi;
          }))
          (omega (arith, r.in_image)) (length image + 1) start s (omega arith) r.ordered
          (omega (arith, r.in_image)) h)
  ]
]

-- Every pointer in an array is one to a descriptor in the region.
abbrev pub Placed : ℕ → Bytes → Option ℕ → Type 0
Placed base image none = Unit
Placed base image (some o) = InRegion base image o

abbrev pub Found : ℕ → Bytes → AllDescriptors → Type 0
Found base image (all_got none heap) = Unit
Found base image (all_got (some (array, n)) heap) = All (Placed base image) array
Found base image all_outside = Unit
Found base image all_aborted = Unit
Found base image all_out_of_fuel = ⊥

All-store :
    (P : Option ℕ → Type 0) (array : List (Option ℕ)) (i o : ℕ)
    → All P array
    → P (some o)
    → All P (store array i (some o))
All-store P [] i o h p = tt
All-store P (x ∷ array) zero o h p = (p, h.1)
All-store P (x ∷ array) (suc i) o h p = (h.0, All-store P array i o h.1 p)

All-replicate : (base : ℕ) (image : Bytes) (n : ℕ) → All (Placed base image) (replicate n none)
All-replicate base image zero = tt
All-replicate base image (suc n) = (tt, All-replicate base image n)

set_all-Found :
    (base : ℕ) (image : Bytes) (n : ℕ) (heap : Heap) (i : Iteration SetDescriptorData)
    → Safe (λ d. All (Placed base image) d.descriptors) i
    → Found base image (set_all n heap i)
unfolding set_all
set_all-Found base image n heap outside h = tt
set_all-Found base image n heap aborted h = tt
set_all-Found base image n heap out_of_fuel h = h
set_all-Found base image n heap (returned d answer) h =
    elim (Bool-cases (d.descriptor_number == n)) [ inl e ↦ rw e h | inr e ↦ rw e tt ]

-- What `avb_descriptor_get_all` hands out are descriptors in the region, for any image.
pub get_all-Found :
    (base : ℕ) (image : Bytes) (heap : Heap)
    → base < 2 ^ 64
    → length image < 2 ^ 64
    → Found base image (avb_descriptor_get_all base image (length image) heap)
unfolding avb_descriptor_get_all set_descriptors
get_all-Found base image heap a b =
    counted (avb_descriptor_foreach base image (length image) count_descriptors 0)
      (foreach-Safe (λ n. Unit) base image count_descriptors 0 a b (λ o n r h. tt) tt)
  where
    counted :
        (i : Iteration ℕ)
        → Safe (λ (n : ℕ). Unit {0}) i
        → Found base image (elim i [
          | outside ↦ all_outside
          | aborted ↦ all_aborted
          | out_of_fuel ↦ all_out_of_fuel
          | returned num_descriptors _ ↦
              let (got, heap') = malloc heap in
              if not got
              then all_got none heap'
              else set_all num_descriptors heap' (
                  avb_descriptor_foreach base image (length image) set_descriptors (record {
                    descriptor_number = 0;
                    descriptors = replicate (num_descriptors + 1) none;
                  }))
        ])
    counted outside h = tt
    counted aborted h = tt
    counted out_of_fuel h = h
    counted (returned n answer) h = elim (Bool-cases ((malloc heap).0)) [
      | inr failed ↦ rw failed tt
      | inl got ↦ rw got (
          set_all-Found base image n _ _ (
            foreach-Safe (λ d. All (Placed base image) d.descriptors) base image set_descriptors _ a
              b (λ o d r h'. All-store (Placed base image) d.descriptors d.descriptor_number o h' r)
              (All-replicate base image (n + 1))))
    ]
