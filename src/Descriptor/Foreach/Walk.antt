-- ===== src/Descriptor/Foreach/Walk.antt =====
-- What an iteration visits, from any descriptor on.
use android_boot_image_edito.Common.{
  ℕ, zero, suc, ◌+◌, ◌-◌, ◌%◌, ◌≤◌, ◌<◌, ◌^◌, ◌≡◌, ◌≢◌, refl, ap, ◌∙◌, inl, inr, arith, true, false,
  none, some, Bytes, List, [], ◌∷◌, length,
}
use native.Mathlib.Decide.{dec_lt}
use android_boot_image_edito.Memory.{slice}
use android_boot_image_edito.Util.Endian.Laws.{be64-lt}
use android_boot_image_edito.Descriptor.Foreach.{
  Iteration, returned, outside, total_size, foreach_loop,
}
use android_boot_image_edito.Descriptor.Foreach.Steps.{
  following, Chain, done, next, fold, always, aligned, bytes_following-ok, bytes_following-fault,
  total_size-Sized, loop_ends, loop_overreads, loop_refuses, loop_next, loop_wraps, add_to_fits,
  add_to_wraps,
}

-- How a walk ends: at the end of the region, at a descriptor that the checks refuse, or at one
-- whose first 16 bytes are not all in the image.
pub data Ending : Type 0 where
  finished : Ending
  refused : Ending
  overread : Ending

abbrev pub conclude : {S : Type 0} → Ending → S → Iteration S
conclude finished s = returned s true
conclude refused s = returned s false
conclude overread s = outside

-- What an iteration from `off` on does with any callback that goes on.
pub record Walked (base : ℕ) (image : Bytes) (start stop fuel off : ℕ) : Type 1 where
  pub offs : List ℕ
  pub ending : Ending
  pub sound : ending ≡ finished → Chain image stop off offs
  pub complete : (os : List ℕ) → Chain image stop off os → ending ≡ finished
  pub runs :
      (S : Type 0) (g : ℕ → S → S) (s : S)
      → foreach_loop base image (base + start) (base + stop) (always g) fuel (base + off) s
        ≡ conclude ending (fold g offs s)

next_aligned :
    (p off n base : ℕ) → p ≡ base + off → p % 8 ≡ 0 → n % 8 ≡ 0 → (base + (off + (16 + n))) % 8 ≡ 0
next_aligned p off n base e a b = omega arith

refused≢finished : refused ≢ finished
refused≢finished e = cc e

overread≢finished : overread ≢ finished
overread≢finished e = cc e

module _ (base : ℕ) (image : Bytes) (start stop : ℕ) where
  Chain-at_end :
      {off : ℕ} {os : List ℕ}
      → Chain image stop off os
      → off < stop
      → (following image off % 8 ≡ 0) × (off + (16 + following image off) ≤ stop)
  Chain-at_end (done e) h = absurd (omega arith)
  Chain-at_end (next m l c) h = (m, l)

  Chain-behind :
      {off : ℕ} {os : List ℕ}
      → Chain image stop off os
      → off < stop
      → (rest : List ℕ) × Chain image stop (off + (16 + following image off)) rest
  Chain-behind (done e) h = absurd (omega arith)
  Chain-behind (next {offs} m l c) h = (offs, c)

  module _ (word : base + stop < 2 ^ 64) (in_image : stop ≤ length image) where
    walk_overread :
        (fuel off : ℕ)
        → start ≤ off
        → off < stop
        → (base + off) % 8 ≡ 0
        → length image < off + 16
        → Walked base image start stop (suc fuel) off
    walk_overread fuel off lo inside al short = record {
      offs = [];
      ending = overread;
      sound = λ e. absurd (overread≢finished e);
      complete = λ os c. let (m, l) = Chain-at_end c inside in absurd (omega arith);
      runs = λ S g s.
          loop_overreads base image (base + start) (base + stop) (always g) fuel (base + off) s
            (ground arith) (aligned (base + off) al) (bytes_following-fault base image off short);
    }

    walk_refused :
        (fuel off : ℕ)
        → start ≤ off
        → off < stop
        → (base + off) % 8 ≡ 0
        → off + 16 ≤ length image
        → total_size (base + start) (base + stop) (base + off) (following image off) ≡ none
        → (following image off % 8 ≡ 0 → off + (16 + following image off) ≤ stop → ⊥)
        → Walked base image start stop (suc fuel) off
    walk_refused fuel off lo inside al room refusal unfit = record {
      offs = [];
      ending = refused;
      sound = λ e. absurd (refused≢finished e);
      complete = λ os c. let (m, l) = Chain-at_end c inside in absurd (unfit m l);
      runs = λ S g s.
          loop_refuses base image (base + start) (base + stop) (always g) fuel (base + off)
            (following image off) s (ground arith) (aligned (base + off) al)
            (bytes_following-ok base image off room) refusal;
    }

    walk_wrapped :
        (fuel off : ℕ)
        → start ≤ off
        → off < stop
        → (base + off) % 8 ≡ 0
        → off + 16 ≤ length image
        → total_size (base + start) (base + stop) (base + off) (following image off)
          ≡ some (16 + following image off)
        → 16 + following image off < 2 ^ 64
        → 2 ^ 64 ≤ base + off + (16 + following image off)
        → Walked base image start stop (suc fuel) off
    walk_wrapped fuel off lo inside al room sized size_word wraps = record {
      offs = off ∷ [];
      ending = refused;
      sound = λ e. absurd (refused≢finished e);
      complete = λ os c. let (m, l) = Chain-at_end c inside in absurd (omega arith);
      runs = λ S g s.
          let here : base + off - base ≡ off = omega arith in
          loop_wraps base image (base + start) (base + stop) g fuel (base + off)
            (following image off) (16 + following image off)
            ((base + off + (16 + following image off)) % 2 ^ 64) s (ground arith)
            (aligned (base + off) al) (bytes_following-ok base image off room) sized
            (add_to_wraps (base + off) (16 + following image off) (omega arith) size_word wraps)
          ∙ ap (λ o. returned (g o s) false) here;
    }

    walk_fits :
        (fuel off : ℕ)
        → start ≤ off
        → off < stop
        → (base + off) % 8 ≡ 0
        → off + 16 ≤ length image
        → total_size (base + start) (base + stop) (base + off) (following image off)
          ≡ some (16 + following image off)
        → following image off % 8 ≡ 0
        → off + (16 + following image off) ≤ stop
        → Walked base image start stop fuel (off + (16 + following image off))
        → Walked base image start stop (suc fuel) off
    walk_fits fuel off lo inside al room sized m l rest = record {
      offs = off ∷ rest.offs;
      ending = rest.ending;
      sound = λ e. next m l (rest.sound e);
      complete = λ os c. let (os', c') = Chain-behind c inside in rest.complete os' c';
      runs = λ S g s.
          let next_p : base + off + (16 + following image off)
              ≡ base + (off + (16 + following image off)) =
            omega arith in
          let here : base + off - base ≡ off = omega arith in
          loop_next base image (base + start) (base + stop) g fuel (base + off)
            (following image off) (16 + following image off)
            (base + off + (16 + following image off)) s (ground arith) (aligned (base + off) al)
            (bytes_following-ok base image off room) sized
            (add_to_fits (base + off) (16 + following image off) (omega arith))
          ∙ ap
              (λ p.
                foreach_loop base image (base + start) (base + stop) (always g) fuel p
                  (g (base + off - base) s))
              next_p
          ∙ ap
              (λ o.
                foreach_loop base image (base + start) (base + stop) (always g) fuel
                  (base + (off + (16 + following image off))) (g o s))
              here
          ∙ rest.runs S g (g off s);
    }

    pub walk :
        (fuel off : ℕ)
        → start ≤ off
        → off ≤ stop
        → (off < stop → (base + off) % 8 ≡ 0)
        → stop - off < fuel
        → Walked base image start stop fuel off
    walk zero off lo hi al f = absurd (omega arith)
    walk (suc fuel) off lo hi al f = elim (dec_lt off stop) [
      | no at_end ↦ record {
        offs = [];
        ending = finished;
        sound = λ _. done (omega arith);
        complete = λ _ _. refl;
        runs = λ S g s.
            loop_ends base image (base + start) (base + stop) (always g) fuel (base + off) s
              (ground arith);
      }
      | yes inside ↦ elim (dec_lt (length image) (off + 16)) [
        | yes short ↦ walk_overread fuel off lo inside (al inside) short
        | no long ↦
            elim (total_size-Sized base start stop off (following image off) lo inside word
              (be64-lt (slice image (off + 8) 8) 0)) [
                | inl (refusal, unfit) ↦
                    walk_refused fuel off lo inside (al inside) (omega arith) refusal unfit
                | inr (inl (sized, m, l)) ↦
                    walk_fits fuel off lo inside (al inside) (omega arith) sized m l (
                      walk fuel (off + (16 + following image off)) (omega arith) l
                        (λ _.
                          next_aligned (base + off) off (following image off) base refl (al inside)
                            m)
                        (omega arith))
                | inr (inr (sized, size_word, wraps)) ↦
                    walk_wrapped fuel off lo inside (al inside) (omega arith) sized size_word wraps
              ]
      ]
    ]
