-- ===== src/Descriptor/Foreach/Exact.antt =====
-- `avb_descriptor_foreach` against the chain of descriptors that the image holds.
use android_boot_image_edito.Common.{
  lt→ltb, ℕ, ◌+◌, ◌<◌, ◌^◌, ◌≡◌, refl, sym, ap, ◌∙◌, ◌↔◌, inl, inr, arith, Bool, true, Bytes, List,
  length,
}
use android_boot_image_edito.Descriptor.Foreach.{
  returned, outside, foreach_loop, avb_descriptor_foreach,
}
use android_boot_image_edito.Descriptor.Foreach.Steps.{aligned, Chain, Chain-unique, fold, always}
use android_boot_image_edito.Descriptor.Foreach.Walk.{
  Ending, finished, refused, overread, conclude, Walked, walk,
}
use android_boot_image_edito.Descriptor.Foreach.Steps.{loop_overreads, bytes_following-fault}
use android_boot_image_edito.Descriptor.Foreach.Region.{HasRegion, foreach-HasRegion, foreach-cases}

-- The walk over the whole region.
pub foreach-Walked :
    (base : ℕ) (image : Bytes) (start stop : ℕ)
    → base + length image < 2 ^ 64
    → HasRegion base image start stop
    → (walked : Walked base image start stop (length image + 1) start) × ((S : Type 0)
          (g : ℕ → S → S) (s : S)
        → avb_descriptor_foreach base image (length image) (always g) s
          ≡ conclude (walked.ending) (fold g (walked.offs) s))
foreach-Walked base image start stop w h =
    let walked =
      walk base image start stop (omega (arith, h.in_image)) (h.in_image) (length image + 1) start
        (omega arith) (h.ordered) (h.start_aligned) (omega (arith, h.in_image)) in
    (walked, λ S g s. foreach-HasRegion base image start stop (always g) s w h ∙ walked.runs S g s)

conclude-finished :
    {S : Type 0} (ending : Ending) (s s' : S)
    → conclude ending s ≡ returned s' true
    → (ending ≡ finished) × (s ≡ s')
conclude-finished finished s s' e = (refl, cc e)
conclude-finished refused s s' e = cc e
conclude-finished overread s s' e = cc e

-- With a callback `g` that always goes on, the iteration answers `true` with the data `s'` exactly
-- when the image is aligned and has a header whose region is a chain of descriptors, one behind the
-- other up to its end and the first one aligned, and `s'` is what `g` makes of them in their order.
-- The image is in the address space.
pub foreach_exact :
    {S : Type 0} (base : ℕ) (image : Bytes) (g : ℕ → S → S) (s s' : S)
    → base + length image < 2 ^ 64
    → (avb_descriptor_foreach base image (length image) (always g) s ≡ returned s' true) ↔ (
        (start : ℕ) × (stop : ℕ) × (offs : List ℕ) × HasRegion base image start stop
        × Chain image stop start offs
        × (fold g offs s ≡ s'))
foreach_exact {S} base image g s s' w = (
  λ e. elim (foreach-cases base image w) [
    | inr (inl rejected) ↦ cc (e, rejected S (always g) s)
    | inr (inr aborts) ↦ cc (e, aborts S (always g) s)
    | inl (start, stop, h) ↦
        let (walked, runs) = foreach-Walked base image start stop w h in
        let (end, data_lem) =
          conclude-finished (walked.ending) (fold g (walked.offs) s) s' (sym (runs S g s) ∙ e) in
        (start, stop, walked.offs, h, walked.sound end, data_lem)
  ],
  λ (start, stop, offs, h, c, e).
      let (walked, runs) = foreach-Walked base image start stop w h in
      let end = walked.complete offs c in
      let same = Chain-unique (walked.sound end) c in runs S g s ∙ rw (end, same, e),
)

-- A region of an aligned image that is not empty, whose start is aligned, and that has fewer than
-- 16 bytes of the image from its start on makes the iteration read outside the image, whatever the
-- callback is.
pub foreach_overreads :
    {S : Type 0} (base : ℕ) (image : Bytes) (start stop : ℕ) (f : ℕ → S → S × Bool) (s : S)
    → base + length image < 2 ^ 64
    → HasRegion base image start stop
    → start < stop
    → length image < start + 16
    → avb_descriptor_foreach base image (length image) f s ≡ outside
foreach_overreads base image start stop f s w h some_bytes short =
    foreach-HasRegion base image start stop f s w h
    ∙ ap (λ n. foreach_loop base image (base + start) (base + stop) f n (base + start) s)
        (omega arith)
    ∙ loop_overreads base image (base + start) (base + stop) f (length image) (base + start) s
        (lt→ltb (base + start) (base + stop) (omega arith))
        (aligned (base + start) (h.start_aligned some_bytes))
        (bytes_following-fault base image start short)
