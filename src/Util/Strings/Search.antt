-- ===== src/Util/Strings/Search.antt =====
-- What `avb_strstr` finds.
use android_boot_image_edito.Common.{
  ℕ, zero, suc, ◌+◌, ◌≤◌, ◌<◌, ◌≡◌, refl, sym, ap, ◌∙◌, ◌⊎◌, inl, inr, arith, true, Bool-cases,
  Option, none, some, Bytes, [], ◌∷◌, ◌++◌, drop,
}
use android_boot_image_edito.Common.{subst}
use native.Mathlib.Decide.{dec_le}
use android_boot_image_edito.Util.Strings.{matches_from, match_at, strstr_loop, avb_strstr}

-- The text begins with these bytes.
abbrev pub StartsWith : Bytes → Bytes → Type 0
StartsWith needle hay = (rest : Bytes) × (hay ≡ needle ++ rest)

abbrev pub OccursAt : Bytes → Bytes → ℕ → Type 0
OccursAt needle hay n = StartsWith needle (drop n hay)

matches_from_sound : (needle hay : Bytes) → matches_from needle hay ≡ true → StartsWith needle hay
unfolding matches_from
matches_from_sound [] hay e = (hay, refl)
matches_from_sound (x ∷ needle) [] e = cc
matches_from_sound (x ∷ needle) (y ∷ hay) e =
    let (rest, r) = matches_from_sound needle hay (ground arith) in
    let same : y ≡ x = ground arith in (rest, cc)

matches_from_complete : (needle rest : Bytes) → matches_from needle (needle ++ rest) ≡ true
unfolding matches_from
matches_from_complete [] rest = refl
matches_from_complete (x ∷ needle) rest = ground (arith, matches_from_complete needle rest)

match_at_sound : (needle hay : Bytes) → match_at needle hay ≡ true → StartsWith needle hay
unfolding match_at
match_at_sound [] [] e = cc
match_at_sound [] (y ∷ hay) e = cc
match_at_sound (x ∷ needle) [] e = cc
match_at_sound (x ∷ needle) (y ∷ hay) e =
    let (rest, r) = matches_from_sound needle hay (ground arith) in
    let same : y ≡ x = ground arith in (rest, cc)

match_at_complete :
    (x : ℕ) (needle hay : Bytes) → StartsWith (x ∷ needle) hay → match_at (x ∷ needle) hay ≡ true
unfolding match_at
match_at_complete x needle hay (rest, e) = rw e (ground (arith, matches_from_complete needle rest))

not_in_nil : (x : ℕ) (needle : Bytes) (m : ℕ) → ¬ (OccursAt (x ∷ needle) [] m)
not_in_nil x needle zero (rest, e) = cc
not_in_nil x needle (suc m) (rest, e) = cc

-- What a search from offset `k` on says of the rest of the text.
abbrev Scanned : Bytes → Bytes → ℕ → Option ℕ → Type 0
Scanned needle hay k found =
    ((found ≡ none) × ((m : ℕ) → ¬ (OccursAt needle hay m)))
    ⊎ ((n : ℕ) × (found ≡ some (k + n))
        × OccursAt needle hay n
        × ((m : ℕ) → m < n → ¬ (OccursAt needle hay m)))

strstr_loop-Scanned :
    (x : ℕ) (needle hay : Bytes) (k : ℕ)
    → Scanned (x ∷ needle) hay k (strstr_loop hay (x ∷ needle) k)
unfolding strstr_loop
strstr_loop-Scanned x needle [] k = inl (refl, not_in_nil x needle)
strstr_loop-Scanned x needle (y ∷ hay) k = elim (Bool-cases (match_at (x ∷ needle) (y ∷ hay))) [
  | inl here ↦ rw here (
      inr (0, ap some (omega arith), match_at_sound (x ∷ needle) (y ∷ hay) here, λ m h. elim h [ ]))
  | inr later ↦
      let not_here : ¬ (OccursAt (x ∷ needle) (y ∷ hay) 0) =
        λ o. cc (later, match_at_complete x needle (y ∷ hay) o) in
      rw later (elim (strstr_loop-Scanned x needle hay (k + 1)) [
        | inl (e, never) ↦ inl (e, elim [ zero ↦ not_here | suc m ↦ never m ])
        | inr (n, e, here, before) ↦ inr (
          suc n,
          e ∙ ap some (omega arith),
          here,
          elim [ zero ↦ (λ h. not_here) | suc m ↦ λ h. before m (omega arith) ],
        )
      ])
]

pub strstr-Scanned :
    (x : ℕ) (needle hay : Bytes) → Scanned (x ∷ needle) hay 0 (avb_strstr hay (x ∷ needle))
unfolding avb_strstr
strstr-Scanned x needle hay = strstr_loop-Scanned x needle hay 0

-- If a non-empty needle occurs anywhere in the text, the search answers with an occurrence that is
-- no later than that one.
pub strstr_first :
    (x : ℕ) (needle hay : Bytes) (m : ℕ)
    → OccursAt (x ∷ needle) hay m
    → (n : ℕ) × (avb_strstr hay (x ∷ needle) ≡ some n) × OccursAt (x ∷ needle) hay n × (n ≤ m)
strstr_first x needle hay m o = elim (strstr-Scanned x needle hay) [
  | inl (e, never) ↦ absurd (never m o)
  | inr (n, e, here, before) ↦ (
    n,
    e ∙ ap some (omega arith),
    here,
    elim (dec_le n m) [ yes h ↦ h | no h ↦ absurd (before m (omega arith) o) ],
  )
]

-- An answer is an occurrence.
pub strstr_sound :
    (x : ℕ) (needle hay : Bytes) (n : ℕ)
    → avb_strstr hay (x ∷ needle) ≡ some n
    → OccursAt (x ∷ needle) hay n
strstr_sound x needle hay n e = elim (strstr-Scanned x needle hay) [
  | inl (f, never) ↦ absurd (cc (sym e ∙ f))
  | inr (k, f, here, before) ↦
      let same : k ≡ n = ground arith in subst (OccursAt (x ∷ needle) hay) same here
]

-- The empty needle is never found.
strstr_loop-nil : (hay : Bytes) (k : ℕ) → strstr_loop hay [] k ≡ none
unfolding strstr_loop match_at
strstr_loop-nil [] k = refl
strstr_loop-nil (y ∷ hay) k = strstr_loop-nil hay (k + 1)

pub strstr-nil : (hay : Bytes) → avb_strstr hay [] ≡ none
unfolding avb_strstr
strstr-nil hay = strstr_loop-nil hay 0
