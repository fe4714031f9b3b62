-- ===== src/Slot/Ensures.antt =====
-- Rules with a fact about value and state, for the computations of a slot verification.
use android_boot_image_edito.Slot.Exec.{
  SlotState, Outcome, done, left, aborted, outside, out_of_fuel, Exec, continue, ◌>>=◌,
}
use android_boot_image_edito.Slot.Rules.{Ends, Yields, Anything}

-- The same with a fact about value and state.
abbrev pub EndsWith :
    {Store A : Type 0}
    → (SlotState Store → Type 0)
    → (A → SlotState Store → Type 0)
    → Outcome Store A
    → Type 0
EndsWith I G (done a s) = I s × G a s
EndsWith I G (left ret s) = I s
EndsWith I G aborted = Unit
EndsWith I G outside = Unit
EndsWith I G out_of_fuel = ⊥

pub record Ensures {Store A : Type 0} (I : SlotState Store → Type 0)
    (G : A → SlotState Store → Type 0) (m : Exec Store A) : Type 0 where
  pub at : (s : SlotState Store) → I s → EndsWith I G (m s)

module _ {Store A B : Type 0} {I : SlotState Store → Type 0}
    {G : B → SlotState Store → Type 0} where
  ensures_lem :
      (o : Outcome Store A) {f : A → Exec Store B}
      → Ends I (λ (a : A). Unit {0}) o
      → ((a : A) → Ensures I G (f a))
      → EndsWith I G (continue o f)
  ensures_lem (done a s) h k = (k a).at s (h.0)
  ensures_lem (left ret s) h k = h
  ensures_lem aborted h k = tt
  ensures_lem outside h k = tt
  ensures_lem out_of_fuel h k = absurd h

  pub Ensures-then :
      {m : Exec Store A} {f : A → Exec Store B}
      → Yields I Anything m
      → ((a : A) → Ensures I G (f a))
      → Ensures I G (m >>= f)
  unfolding ◌>>=◌
  Ensures-then {m} km kf = record { at = λ s h. ensures_lem (m s) (km.at s h) kf }
