-- ===== src/Util/Strings/Replace.antt =====
-- What `avb_replace` computes, and what it returns when an allocation fails.
use Prim.Native.Nat.add
use android_boot_image_edito.Common.{
  Option-cases, ℕ, zero, suc, ◌+◌, ◌<◌, ◌≡◌, refl, ap, ◌∙◌, inl, inr, arith, true, false, Option,
  none, some, Bytes, [], ◌∷◌, ◌++◌, length, drop, take, append_assoc, length-drop, subst,
  drop-append,
}
use android_boot_image_edito.Heap.{Heap, Plenty}
use android_boot_image_edito.Util.Strings.{
  avb_strstr, Replaced, finished, out_of_memory, grow, replace_loop, replace_end, avb_replace,
}
use android_boot_image_edito.Util.Strings.Search.{StartsWith, OccursAt, strstr-Scanned}

-- Replacing every occurrence, from left to right and without overlap.
pub data ReplacesTo (search replace : Bytes) : Bytes → Bytes → Type 0 where
  done : ReplacesTo search replace [] []
  keep :
      {c : ℕ} {str out : Bytes}
      → ¬ (StartsWith search (c ∷ str))
      → ReplacesTo search replace str out
      → ReplacesTo search replace (c ∷ str) (c ∷ out)
  swap :
      {str rest out : Bytes}
      → str ≡ search ++ rest
      → ReplacesTo search replace rest out
      → ReplacesTo search replace str (replace ++ out)

module _ (search replace : Bytes) where
  keep_all :
      (str : Bytes) → ((m : ℕ) → ¬ (OccursAt search str m)) → ReplacesTo search replace str str
  keep_all [] never = done
  keep_all (c ∷ str) never = keep (never 0) (keep_all str (λ m. never (suc m)))

  skip_to :
      (n : ℕ) (str out : Bytes)
      → OccursAt search str n
      → ((m : ℕ) → m < n → ¬ (OccursAt search str m))
      → ReplacesTo search replace (drop (n + length search) str) out
      → ReplacesTo search replace str (take n str ++ (replace ++ out))
  skip_to zero str out (rest, e) before t =
      let behind : drop (0 + length search) str ≡ rest =
        rw e (drop-append (0 + length search) search rest (omega arith)) in
      swap e (subst (λ s. ReplacesTo search replace s out) behind t)
  skip_to (suc n) [] out (rest, e) before t = absurd (before 0 (omega arith) (rest, e))
  skip_to (suc n) (c ∷ str) out o before t = keep (before 0 (omega arith)) (
      skip_to n str out o (λ m h. before (suc m) (omega arith))
        (rw (add.suc n (length search)) at t))

abbrev front : Option Bytes → Bytes
front none = []
front (some ret) = ret

replace_end-finished :
    (ret : Option Bytes) (rest : Bytes)
    → replace_end (finished ret rest Plenty) ≡ (some (front ret ++ rest), Plenty)
unfolding replace_end
replace_end-finished none rest = refl
replace_end-finished (some r) rest = refl

front-grow :
    (ret : Option Bytes) (before replace : Bytes)
    → grow ret before replace ≡ front ret ++ (before ++ replace)
front-grow none before replace = refl
front-grow (some r) before replace = refl

-- What the loop leads to with memory to spare.
abbrev Result : Bytes → Bytes → Bytes → Option Bytes → Replaced → Type 0
Result search replace str ret r =
    (out : Bytes) × (replace_end r ≡ (some (front ret ++ out), Plenty))
    × ReplacesTo search replace str out

-- One round: nothing is found, or the loop goes on behind a match.
replace_loop-found :
    (fuel c n : ℕ) (str search replace : Bytes) (ret : Option Bytes)
    → avb_strstr (c ∷ str) search ≡ some n
    → replace_loop (suc fuel) (c ∷ str) search replace ret Plenty
      ≡ replace_loop fuel
          (drop (n + length search) (c ∷ str))
          search
          replace
          (some (grow ret (take n (c ∷ str)) replace))
          Plenty
unfolding replace_loop
replace_loop-found fuel c n str search replace ret e = rw (e, replace_loop)

replace_loop-absent :
    (fuel c : ℕ) (str search replace : Bytes) (ret : Option Bytes) (heap : Heap)
    → avb_strstr (c ∷ str) search ≡ none
    → replace_loop (suc fuel) (c ∷ str) search replace ret heap ≡ finished ret (c ∷ str) heap
unfolding replace_loop
replace_loop-absent fuel c str search replace ret heap e = rw (e, replace_loop)

module _ (x : ℕ) (needle replace : Bytes) where
  abbrev search : Bytes
  search = x ∷ needle

  replace_loop-Result :
      (fuel : ℕ) (str : Bytes) (ret : Option Bytes)
      → length str < fuel
      → Result search replace str ret (replace_loop fuel str search replace ret Plenty)
  replace_loop-Result zero str ret h = absurd (omega arith)
  replace_loop-Result (suc fuel) [] ret h =
      ([], unfold replace_loop in replace_end-finished ret [], done)
  replace_loop-Result (suc fuel) (c ∷ str) ret h = elim (strstr-Scanned x needle (c ∷ str)) [
    | inl (e, never) ↦ (
      c ∷ str,
      ap replace_end (replace_loop-absent fuel c str search replace ret Plenty e)
          ∙ replace_end-finished ret (c ∷ str),
      keep_all search replace (c ∷ str) never,
    )
    | inr (n, e, here, before) ↦
        let found : avb_strstr (c ∷ str) search ≡ some n = e ∙ ap some (omega arith) in
        let shorter : length (drop (n + length search) (c ∷ str)) < fuel =
          omega (arith, length-drop (n + length search) (c ∷ str)) in
        let next = some (grow ret (take n (c ∷ str)) replace) in
        let (out, r, t) =
          replace_loop-Result fuel (drop (n + length search) (c ∷ str)) next shorter in
        (
          take n (c ∷ str) ++ (replace ++ out),
          ap replace_end (replace_loop-found fuel c n str search replace ret found)
              ∙ r
              ∙ rw (front-grow, append_assoc, append_assoc),
          skip_to search replace n (c ∷ str) out here before t,
        )
  ]

  -- With memory to spare the result is the text with every occurrence of a non-empty search string
  -- replaced, from left to right and without overlap.
  pub replace_all :
      (str : Bytes)
      → (out : Bytes) × (avb_replace str search replace Plenty ≡ (some out, Plenty))
        × ReplacesTo search replace str out
  unfolding avb_replace
  replace_all str = replace_loop-Result (length str + 1) str none (omega arith)

replace_loop-oom :
    (fuel c n : ℕ) (str search replace : Bytes) (ret : Option Bytes) (heap : Heap)
    → avb_strstr (c ∷ str) search ≡ some n
    → replace_loop (suc fuel) (c ∷ str) search replace ret (false ∷ heap) ≡ out_of_memory ret heap
unfolding replace_loop
replace_loop-oom fuel c n str search replace ret heap e = rw (e, replace_loop)

-- A round with a copy at hand and no more memory ends with that copy.
keeps_copy :
    (fuel : ℕ) (str search replace ret : Bytes) (heap : Heap)
    → (replace_end (replace_loop (suc fuel) str search replace (some ret) (false ∷ heap))).0
      ≡ some ret
unfolding replace_end
keeps_copy fuel [] search replace ret heap = unfold replace_loop in refl
keeps_copy fuel (c ∷ str) search replace ret heap =
    elim (Option-cases (avb_strstr (c ∷ str) search)) [
      | inl e ↦ rw (replace_loop-absent fuel c str search replace (some ret) (false ∷ heap) e)
      | inr (n, e) ↦ rw (replace_loop-oom fuel c n str search replace (some ret) heap e)
    ]

-- When the text holds the search string and the second allocation fails, the result is not `NULL`:
-- it is a copy that ends with the first replacement, without the text behind it.
pub replace_truncates :
    (c n : ℕ) (str search replace : Bytes) (heap : Heap)
    → avb_strstr (c ∷ str) search ≡ some n
    → (avb_replace (c ∷ str) search replace (true ∷ false ∷ heap)).0
      ≡ some (take n (c ∷ str) ++ replace)
unfolding avb_replace
replace_truncates c n str search replace heap e =
    let fuel : length (c ∷ str) + 1 ≡ suc (suc (length str)) = omega arith in
    rw (fuel, e, replace_loop)
      (keeps_copy (length str) (drop (n + length search) (c ∷ str)) search replace
        (take n (c ∷ str) ++ replace) heap)
