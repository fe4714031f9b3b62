-- ===== src/Descriptor/Foreach/GetAll.antt =====
-- `avb_descriptor_get_all` of c/avb_descriptor.c against the iteration that it runs twice.
use android_boot_image_edito.Common.{
  ℕ, suc, ==_iff, ◌==◌, ◌+◌, ◌<◌, ◌^◌, ◌⊎◌, inl, inr, ◌≡◌, ◌≢◌, refl, sym, ap, ◌∙◌, arith, Bool,
  true, false, Option, none, some, Bytes, List, [], ◌∷◌, ◌++◌, append-nil, append_assoc, length,
  length-append, replicate,
}
use mathlib.Core.List.{map}
use android_boot_image_edito.Heap.{Heap}
use android_boot_image_edito.Descriptor.Foreach.{
  returned, avb_descriptor_foreach, count_descriptors, SetDescriptorData, store, set_descriptors,
  avb_descriptor_get_all, outside, aborted, set_all, all_got, all_outside, all_aborted,
}
use android_boot_image_edito.Descriptor.Foreach.Steps.{fold, always, Chain, Chain-unique}
use android_boot_image_edito.Descriptor.Foreach.Walk.{Ending, finished, refused, overread, conclude}
use android_boot_image_edito.Descriptor.Foreach.Region.{HasRegion, EndsAtOnce, foreach-cases}
use android_boot_image_edito.Descriptor.Foreach.Exact.{foreach-Walked}

-- The array of `avb_descriptor_get_all`: the descriptors, then `NULL`.
abbrev pub terminated : List ℕ → List (Option ℕ)
terminated offs = map some offs ++ (none ∷ [])

abbrev count : ℕ → ℕ → ℕ
count o n = n + 1

abbrev set : ℕ → SetDescriptorData → SetDescriptorData
set o data' = record {
  descriptor_number = data'.descriptor_number + 1;
  descriptors = store data'.descriptors data'.descriptor_number (some o);
}

fold-count : (offs : List ℕ) (n : ℕ) → fold count offs n ≡ n + length offs
fold-count [] n = omega arith
fold-count (o ∷ offs) n = fold-count offs (n + 1) ∙ omega arith

counted : (offs : List ℕ) → fold count offs 0 ≡ length offs
counted offs = omega (arith, fold-count offs 0)

store-append :
    (xs : List ℕ) (rest : List (Option ℕ)) (o : ℕ)
    → store (map some xs ++ (none ∷ rest)) (length xs) (some o) ≡ map some (xs ++ (o ∷ [])) ++ rest
store-append [] rest o = refl
store-append (x ∷ xs) rest o = ap (λ l. some x ∷ l) (store-append xs rest o)

-- The data of the second iteration with the descriptors `xs` stored and room for `n` more.
abbrev stored : List ℕ → ℕ → SetDescriptorData
stored xs n = record {
  descriptor_number = length xs;
  descriptors = map some xs ++ (none ∷ replicate n none);
}

set-stored : (xs : List ℕ) (n o : ℕ) → set o (stored xs (suc n)) ≡ stored (xs ++ (o ∷ [])) n
set-stored xs n o =
    let number : length xs + 1 ≡ length (xs ++ (o ∷ [])) =
      omega (arith, length-append xs (o ∷ [])) in
    let array = store-append xs (none ∷ replicate n none) o in rw (number, array)

fold-set : (xs offs : List ℕ) → fold set offs (stored xs (length offs)) ≡ stored (xs ++ offs) 0
fold-set xs [] = ap (λ l. stored l 0) (sym (append-nil xs))
fold-set xs (o ∷ offs) =
    ap (fold set offs) (set-stored xs (length offs) o)
    ∙ fold-set (xs ++ (o ∷ [])) offs
    ∙ ap (λ l. stored l 0) (append_assoc xs (o ∷ []) offs)

-- What an iteration with a callback that goes on does to an image.
abbrev Outcome : ℕ → Bytes → List ℕ → Ending → Type 1
Outcome base image offs ending =
    (S : Type 0) (g : ℕ → S → S) (s : S)
    → avb_descriptor_foreach base image (length image) (always g) s
      ≡ conclude ending (fold g offs s)

the_next : (n m : ℕ) → n ≡ m → n + 1 ≡ suc m
the_next n m e = omega arith

-- The data at the start of the second iteration, and at its end.
set_stored :
    (offs : List ℕ) (n : ℕ)
    → n ≡ length offs
    → fold set offs (record { descriptor_number = 0; descriptors = replicate (n + 1) none })
      ≡ stored offs 0
set_stored offs n e =
    let nothing : Option ℕ = none in
    let room : replicate (n + 1) nothing ≡ nothing ∷ replicate (length offs) nothing =
      ap (λ (k : ℕ). replicate k nothing) (the_next n (length offs) e) in
    rw room (fold-set [] offs)

-- The two iterations, when they do not end outside the image.
get_all-returned :
    (base : ℕ) (image : Bytes) (heap : Heap) (offs : List ℕ) (answer : Bool)
    → ((S : Type 0) (g : ℕ → S → S) (s : S)
        → avb_descriptor_foreach base image (length image) (always g) s
          ≡ returned (fold g offs s) answer)
    → avb_descriptor_get_all base image (length image) (true ∷ heap)
      ≡ all_got (some (terminated offs, length offs)) heap
unfolding avb_descriptor_get_all count_descriptors set_descriptors set_all
get_all-returned base image heap offs answer o =
    let counts : avb_descriptor_foreach base image (length image) count_descriptors 0
        ≡ returned (length offs) answer =
      o ℕ count 0 ∙ ap (λ n. returned n answer) (counted offs) in
    let sets : avb_descriptor_foreach base image (length image) set_descriptors
          (record { descriptor_number = 0; descriptors = replicate (length offs + 1) none })
        ≡ returned (stored offs 0) answer =
      o SetDescriptorData set _
      ∙ ap (λ d. returned d answer) (set_stored offs (length offs) refl) in
    let number : (length offs == length offs) ≡ true =
      (==_iff (length offs) (length offs)).1 refl in
    rw (counts, sets, number, avb_descriptor_get_all)

get_all-conclude :
    (base : ℕ) (image : Bytes) (heap : Heap) (offs : List ℕ) (ending : Ending)
    → ending ≢ overread
    → Outcome base image offs ending
    → avb_descriptor_get_all base image (length image) (true ∷ heap)
      ≡ all_got (some (terminated offs, length offs)) heap
get_all-conclude base image heap offs finished h o = get_all-returned base image heap offs true o
get_all-conclude base image heap offs refused h o = get_all-returned base image heap offs false o
get_all-conclude base image heap offs overread h o = absurd (h refl)

overread-cases : (ending : Ending) → (ending ≡ overread) ⊎ (ending ≢ overread)
overread-cases finished = inr (λ e. cc e)
overread-cases refused = inr (λ e. cc e)
overread-cases overread = inl refl

finished≢overread : finished ≢ overread
finished≢overread e = cc e

get_all-overread :
    (base : ℕ) (image : Bytes) (heap : Heap) (offs : List ℕ)
    → Outcome base image offs overread
    → avb_descriptor_get_all base image (length image) heap ≡ all_outside
unfolding avb_descriptor_get_all count_descriptors
get_all-overread base image heap offs o =
    let counts : avb_descriptor_foreach base image (length image) count_descriptors 0 ≡ outside =
      o ℕ count 0 in
    rw (counts, avb_descriptor_get_all)

foreach-Outcome :
    (base : ℕ) (image : Bytes)
    → base + length image < 2 ^ 64
    → ((offs : List ℕ) × (ending : Ending) × Outcome base image offs ending)
      ⊎ EndsAtOnce base image (λ S s. aborted)
foreach-Outcome base image w = elim (foreach-cases base image w) [
  | inr (inl rejected) ↦ inl ([], refused, λ S g s. rejected S (always g) s)
  | inr (inr aborts) ↦ inr aborts
  | inl (start, stop, h) ↦
      let (walked, runs) = foreach-Walked base image start stop w h in
      inl (walked.offs, walked.ending, runs)
]

not_aborted : {A : Type 0} (ending : Ending) (n : ℕ) → conclude ending n ≡ aborted → A
not_aborted finished n e = cc e
not_aborted refused n e = cc e
not_aborted overread n e = cc e

get_all-aborts :
    (base : ℕ) (image : Bytes) (heap : Heap)
    → EndsAtOnce base image (λ S s. aborted)
    → avb_descriptor_get_all base image (length image) heap ≡ all_aborted
unfolding avb_descriptor_get_all
get_all-aborts base image heap aborts = rw (aborts ℕ count_descriptors 0, avb_descriptor_get_all)

-- The descriptors of an image whose region is a chain: the array has the chain's offsets in their
-- order and then `NULL`, and the number of descriptors is the chain's length. The image is in the
-- address space, and `malloc` succeeds.
pub get_all_exact :
    (base : ℕ) (image : Bytes) (start stop : ℕ) (offs : List ℕ) (heap : Heap)
    → base + length image < 2 ^ 64
    → HasRegion base image start stop
    → Chain image stop start offs
    → avb_descriptor_get_all base image (length image) (true ∷ heap)
      ≡ all_got (some (terminated offs, length offs)) heap
get_all_exact base image start stop offs heap w h c =
    let (walked, runs) = foreach-Walked base image start stop w h in
    let end = walked.complete offs c in
    let same = Chain-unique (walked.sound end) c in
    get_all-conclude base image heap offs finished finished≢overread
      (λ S g s. runs S g s ∙ rw (end, same))

-- On any image of the address space, when `malloc` succeeds, `avb_descriptor_get_all` fails an
-- assertion, which it does on no aligned image whose first descriptor is aligned, or reads outside
-- the image, or returns an array that ends with `NULL`, with an offset in every place before that
-- and their number: both iterations see the same descriptors, and no store is outside the array. It
-- does not run out of the model's fuel.
pub get_all_terminated :
    (base : ℕ) (image : Bytes) (heap : Heap)
    → base + length image < 2 ^ 64
    → ((avb_descriptor_get_all base image (length image) (true ∷ heap) ≡ all_aborted)
        × ((start stop : ℕ) → HasRegion base image start stop → ⊥))
      ⊎ ((avb_descriptor_get_all base image (length image) (true ∷ heap) ≡ all_outside)
          ⊎ ((offs : List ℕ) × (avb_descriptor_get_all base image (length image) (true ∷ heap)
                ≡ all_got (some (terminated offs, length offs)) heap)))
get_all_terminated base image heap w = elim (foreach-Outcome base image w) [
  | inr aborts ↦ inl (
    get_all-aborts base image (true ∷ heap) aborts,
    λ start stop h.
        let (walked, runs) = foreach-Walked base image start stop w h in
        not_aborted walked.ending (fold count walked.offs 0)
          (sym (runs ℕ count 0) ∙ aborts ℕ (always count) 0),
  )
  | inl (offs, ending, o) ↦ inr (elim (overread-cases ending) [
    | inr h ↦ inr (offs, get_all-conclude base image heap offs ending h o)
    | inl e ↦ inl (
        get_all-overread base image (true ∷ heap) offs
          (λ S g s. o S g s ∙ ap (λ d. conclude d (fold g offs s)) e))
  ])
]
