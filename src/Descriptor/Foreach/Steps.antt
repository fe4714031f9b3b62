-- ===== src/Descriptor/Foreach/Steps.antt =====
-- One round of the iteration, by what it finds at the address.
use android_boot_image_edito.Common.{
  ℕ, suc, ◌+◌, ◌-◌, ◌%◌, ◌≤◌, ◌<◌, ◌^◌, ◌≡◌, refl, ap, ◌∙◌, ◌⊎◌, arith, Bool, true, false, ltb,
  Option, none, some, Bytes, List, [], ◌∷◌, length,
}
use android_boot_image_edito.Common.Bits.{bit_and_seven}
use android_boot_image_edito.Memory.{ok, fault, slice, read, read-ok, read-fault}
use android_boot_image_edito.Util.Endian.{be64}
use android_boot_image_edito.Util.Checked.{avb_safe_add_to, avb_safe_add}
use android_boot_image_edito.Descriptor.Foreach.{
  returned, outside, bytes_following, total_size, foreach_loop, is_aligned, aborted,
}

-- `num_bytes_following` of the descriptor at an offset.
abbrev pub following : Bytes → ℕ → ℕ
following image off = be64 (slice image (off + 8) 8) 0

-- The bytes from `off` to `stop` are descriptors, one behind the other, at these offsets.
pub data Chain (image : Bytes) (stop : ℕ) : ℕ → List ℕ → Type 0 where
  done : {off : ℕ} → off ≡ stop → Chain image stop off []
  next :
      {off : ℕ} {offs : List ℕ}
      → following image off % 8 ≡ 0
      → off + (16 + following image off) ≤ stop
      → Chain image stop (off + (16 + following image off)) offs
      → Chain image stop off (off ∷ offs)

pub Chain-unique :
    {image : Bytes} {stop off : ℕ} {os os' : List ℕ}
    → Chain image stop off os
    → Chain image stop off os'
    → os ≡ os'
Chain-unique (done a) (done b) = refl
Chain-unique (done a) (next m l d) = absurd (omega arith)
Chain-unique (next m l c) (done b) = absurd (omega arith)
Chain-unique (next {off} m l c) (next m' l' d) = ap (λ os. off ∷ os) (Chain-unique c d)

-- A callback that goes on, over these descriptors.
abbrev pub fold {ℓ} : {S : Type ℓ} → (ℕ → S → S) → List ℕ → S → S
fold g [] s = s
fold g (o ∷ os) s = fold g os (g o s)

abbrev pub always : {S : Type 0} → (ℕ → S → S) → ℕ → S → S × Bool
always g o s = (g o s, true)

pub bytes_following-ok :
    (base : ℕ) (image : Bytes) (off : ℕ)
    → off + 16 ≤ length image
    → bytes_following base image (base + off) ≡ ok (following image off)
unfolding bytes_following
bytes_following-ok base image off h =
    let place : base + off - base + 8 ≡ off + 8 = omega arith in
    let field : read image (base + off - base + 8) 8 ≡ ok (slice image (off + 8) 8) =
      ap (λ (o : ℕ). read image o 8) place ∙ read-ok image (off + 8) 8 (omega arith) in
    rw (field, bytes_following)

pub bytes_following-fault :
    (base : ℕ) (image : Bytes) (off : ℕ)
    → length image < off + 16
    → bytes_following base image (base + off) ≡ fault
unfolding bytes_following
bytes_following-fault base image off h =
    let place : base + off - base + 8 ≡ off + 8 = omega arith in
    let field : read image (base + off - base + 8) 8 ≡ fault =
      ap (λ (o : ℕ). read image o 8) place ∙ read-fault image (off + 8) 8 (omega arith) in
    rw (field, bytes_following)

-- The checks of a descriptor: it is refused, it fits the region, or its end wraps back into it.
abbrev pub Sized : ℕ → ℕ → ℕ → ℕ → ℕ → Option ℕ → Type 0
Sized base start stop off n size =
    ((size ≡ none) × ((n % 8 ≡ 0 → off + (16 + n) ≤ stop → ⊥)))
    ⊎ (((size ≡ some (16 + n)) × (n % 8 ≡ 0) × (off + (16 + n) ≤ stop))
        ⊎ ((size ≡ some (16 + n)) × (16 + n < 2 ^ 64) × (2 ^ 64 ≤ base + off + (16 + n))))

pub total_size-Sized :
    (base start stop off n : ℕ)
    → start ≤ off
    → off < stop
    → base + stop < 2 ^ 64
    → n < 2 ^ 64
    → Sized base start stop off n (total_size (base + start) (base + stop) (base + off) n)
unfolding total_size avb_safe_add
total_size-Sized base start stop off n p q r s = ground (arith, bit_and_seven ((16 + n) % 2 ^ 64))

pub aligned : (p : ℕ) → p % 8 ≡ 0 → is_aligned p ≡ true
aligned p h = ground (arith, bit_and_seven p)

pub aligned-lem : (p : ℕ) → is_aligned p ≡ true → p % 8 ≡ 0
aligned-lem p h = ground (arith, bit_and_seven p)

module _ {S : Type 0} (base : ℕ) (image : Bytes) (desc_start desc_end : ℕ)
    (f : ℕ → S → S × Bool) where
  pub loop_ends :
      (fuel p : ℕ) (s : S)
      → ltb p desc_end ≡ false
      → foreach_loop base image desc_start desc_end f (suc fuel) p s ≡ returned s true
  unfolding foreach_loop
  loop_ends fuel p s e = rw (e, foreach_loop)

  pub loop_overreads :
      (fuel p : ℕ) (s : S)
      → ltb p desc_end ≡ true
      → is_aligned p ≡ true
      → bytes_following base image p ≡ fault
      → foreach_loop base image desc_start desc_end f (suc fuel) p s ≡ outside
  unfolding foreach_loop
  loop_overreads fuel p s e al b = rw (e, al, b, foreach_loop)

  pub loop_aborts :
      (fuel p : ℕ) (s : S)
      → ltb p desc_end ≡ true
      → is_aligned p ≡ false
      → foreach_loop base image desc_start desc_end f (suc fuel) p s ≡ aborted
  unfolding foreach_loop
  loop_aborts fuel p s e al = rw (e, al, foreach_loop)

  pub loop_refuses :
      (fuel p n : ℕ) (s : S)
      → ltb p desc_end ≡ true
      → is_aligned p ≡ true
      → bytes_following base image p ≡ ok n
      → total_size desc_start desc_end p n ≡ none
      → foreach_loop base image desc_start desc_end f (suc fuel) p s ≡ returned s false
  unfolding foreach_loop
  loop_refuses fuel p n s e al b t = rw (e, al, b, t, foreach_loop)

module _ {S : Type 0} (base : ℕ) (image : Bytes) (desc_start desc_end : ℕ) (g : ℕ → S → S) where
  pub loop_next :
      (fuel p n size p' : ℕ) (s : S)
      → ltb p desc_end ≡ true
      → is_aligned p ≡ true
      → bytes_following base image p ≡ ok n
      → total_size desc_start desc_end p n ≡ some size
      → avb_safe_add_to p size ≡ (p', true)
      → foreach_loop base image desc_start desc_end (always g) (suc fuel) p s
        ≡ foreach_loop base image desc_start desc_end (always g) fuel p' (g (p - base) s)
  unfolding foreach_loop
  loop_next fuel p n size p' s e al b t a =
      rw (e, al, b, t, ap (λ q. q.1) a, foreach_loop)
        (ap (λ q. foreach_loop base image desc_start desc_end (always g) fuel q (g (p - base) s))
          (ap (λ q. q.0) a))

  -- The callback is called, and only then is the sum found to overflow.
  pub loop_wraps :
      (fuel p n size p' : ℕ) (s : S)
      → ltb p desc_end ≡ true
      → is_aligned p ≡ true
      → bytes_following base image p ≡ ok n
      → total_size desc_start desc_end p n ≡ some size
      → avb_safe_add_to p size ≡ (p', false)
      → foreach_loop base image desc_start desc_end (always g) (suc fuel) p s
        ≡ returned (g (p - base) s) false
  unfolding foreach_loop
  loop_wraps fuel p n size p' s e al b t a = rw (e, al, b, t, a, foreach_loop)

pub add_to_fits : (p size : ℕ) → p + size < 2 ^ 64 → avb_safe_add_to p size ≡ (p + size, true)
unfolding avb_safe_add_to
add_to_fits p size h = ground arith

pub add_to_wraps :
    (p size : ℕ)
    → p < 2 ^ 64
    → size < 2 ^ 64
    → 2 ^ 64 ≤ p + size
    → avb_safe_add_to p size ≡ ((p + size) % 2 ^ 64, false)
unfolding avb_safe_add_to
add_to_wraps p size a b h = ground arith
