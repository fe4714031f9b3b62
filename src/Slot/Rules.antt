-- ===== src/Slot/Rules.antt =====
-- Rules for the computations of a slot verification: an invariant of the state on every way out,
-- and a fact about the value on the way on.
use android_boot_image_edito.Common.{
  ◌≡◌, refl, arith, Bool, true, false, if◌then◌else◌, Option, none, some,
}
use android_boot_image_edito.Memory.{Run, ok, fault}
use android_boot_image_edito.Ops.{AvbIoResult, io_ok, AvbSlotVerifyResult}
use android_boot_image_edito.Slot.Exec.{
  SlotState, Outcome, done, left, aborted, outside, out_of_fuel, Exec, pure, leave, abort,
  undefined, lift, or_leave, if_null, continue, ◌>>=◌, check, avb_assert, or_io, function,
  returned_as,
}

-- The state satisfies `I` when the computation goes on, and then its value `F`, or when it leaves.
-- It does not run out of fuel.
abbrev pub Ends :
    {Store A : Type 0} → (SlotState Store → Type 0) → (A → Type 0) → Outcome Store A → Type 0
Ends I F (done a s) = I s × F a
Ends I F (left ret s) = I s
Ends I F aborted = Unit
Ends I F outside = Unit
Ends I F out_of_fuel = ⊥

pub record Yields {Store A : Type 0} (I : SlotState Store → Type 0) (F : A → Type 0)
    (m : Exec Store A) : Type 0 where
  pub at : (s : SlotState Store) → I s → Ends I F (m s)

abbrev pub Anything : {A : Type 0} → A → Type 0
Anything a = Unit

module _ {Store : Type 0} {I : SlotState Store → Type 0} where
  module _ {A : Type 0} {F : A → Type 0} where
    pub Yields-pure : (a : A) → F a → Yields I F (pure a)
    unfolding pure
    Yields-pure a f = record { at = λ s h. (h, f) }

    pub Yields-leave : (ret : AvbSlotVerifyResult) → Yields I F (leave ret)
    unfolding leave
    Yields-leave ret = record { at = λ s h. h }

    pub Yields-abort : Yields I F abort
    unfolding abort
    Yields-abort = record { at = λ s h. tt }

    pub Yields-undefined : Yields I F undefined
    unfolding undefined
    Yields-undefined = record { at = λ s h. tt }

    pub Yields-if :
        (b : Bool) (m n : Exec Store A)
        → (b ≡ true → Yields I F m)
        → (b ≡ false → Yields I F n)
        → Yields I F (if b then m else n)
    Yields-if true m n km kn = km refl
    Yields-if false m n km kn = kn refl

  pub Yields-if_null :
      {A B : Type 0} {F : B → Type 0} (o : Option A) (m : Exec Store B) (f : A → Exec Store B)
      → (o ≡ none → Yields I F m)
      → ((a : A) → o ≡ some a → Yields I F (f a))
      → Yields I F (if_null o m f)
  Yields-if_null none m f km kf = km refl
  Yields-if_null (some a) m f km kf = kf a refl

  pub Yields-lift : {A : Type 0} (r : Run A) → Yields I (λ a. r ≡ ok a) (lift r)
  unfolding lift
  Yields-lift (ok a) = record { at = λ s h. (h, refl) }
  Yields-lift fault = record { at = λ s h. tt }

  pub Yields-or_leave :
      {A : Type 0} (o : Option A) (ret : AvbSlotVerifyResult)
      → Yields I (λ a. o ≡ some a) (or_leave o ret)
  unfolding or_leave
  Yields-or_leave none ret = record { at = λ s h. h }
  Yields-or_leave (some a) ret = record { at = λ s h. (h, refl) }

  pub Yields-check : (b : Bool) (ret : AvbSlotVerifyResult) → Yields I (λ _. b ≡ true) (check b ret)
  unfolding check
  Yields-check true ret = record { at = λ s h. (h, refl) }
  Yields-check false ret = record { at = λ s h. h }

  pub Yields-assert : (b : Bool) → Yields I (λ _. b ≡ true) (avb_assert b)
  unfolding avb_assert
  Yields-assert true = record { at = λ s h. (h, refl) }
  Yields-assert false = record { at = λ s h. tt }

  pub Yields-or_io : (io_ret : AvbIoResult) → Yields I (λ _. io_ret ≡ io_ok) (or_io io_ret)
  unfolding or_io
  Yields-or_io io_ret = record { at = λ s h. ground arith }

  pub Yields-function :
      {m : Exec Store AvbSlotVerifyResult} → Yields I Anything m → Yields I Anything (function m)
  unfolding function
  Yields-function {m} k = record { at = λ s h. returned_lem (m s) (k.at s h) }
    where
      returned_lem :
          (o : Outcome Store AvbSlotVerifyResult)
          → Ends I (λ (a : AvbSlotVerifyResult). Unit) o
          → Ends I (λ (a : AvbSlotVerifyResult). Unit) (returned_as o)
      returned_lem (done a s) h = h
      returned_lem (left ret s) h = (h, tt)
      returned_lem aborted h = tt
      returned_lem outside h = tt
      returned_lem out_of_fuel h = h

  module _ {A B : Type 0} {F : A → Type 0} {G : B → Type 0} where
    continue_lem :
        (o : Outcome Store A) {f : A → Exec Store B}
        → Ends I F o
        → ((a : A) → F a → Yields I G (f a))
        → Ends I G (continue o f)
    continue_lem (done a s) h k = (k a (h.1)).at s (h.0)
    continue_lem (left ret s) h k = h
    continue_lem aborted h k = tt
    continue_lem outside h k = tt
    continue_lem out_of_fuel h k = absurd h

    pub Yields-bind :
        {m : Exec Store A} {f : A → Exec Store B}
        → Yields I F m
        → ((a : A) → F a → Yields I G (f a))
        → Yields I G (m >>= f)
    unfolding ◌>>=◌
    Yields-bind {m} km kf = record { at = λ s h. continue_lem (m s) (km.at s h) kf }

  pub Yields-weaken :
      {A : Type 0} {F G : A → Type 0} {m : Exec Store A}
      → Yields I F m
      → ((a : A) → F a → G a)
      → Yields I G m
  Yields-weaken {A} {F} {G} {m} k w = record { at = λ s h. ends_weaken (m s) (k.at s h) }
    where
      ends_weaken : (o : Outcome Store A) → Ends I F o → Ends I G o
      ends_weaken (done a s) h = (h.0, w a (h.1))
      ends_weaken (left ret s) h = h
      ends_weaken aborted h = tt
      ends_weaken outside h = tt
      ends_weaken out_of_fuel h = h

  -- What is kept, whatever the value is.
  pub Keeps : {A : Type 0} {F : A → Type 0} {m : Exec Store A} → Yields I F m → Yields I Anything m
  Keeps k = Yields-weaken k (λ a f. tt)

  pub Keeps-pure : {A : Type 0} (a : A) → Yields I Anything (pure a)
  Keeps-pure a = Yields-pure a tt

  pub Keeps-lift : {A : Type 0} (r : Run A) → Yields I Anything (lift r)
  Keeps-lift r = Keeps (Yields-lift r)

  pub Keeps-or_leave :
      {A : Type 0} (o : Option A) (ret : AvbSlotVerifyResult) → Yields I Anything (or_leave o ret)
  Keeps-or_leave o ret = Keeps (Yields-or_leave o ret)

  pub Keeps-check : (b : Bool) (ret : AvbSlotVerifyResult) → Yields I Anything (check b ret)
  Keeps-check b ret = Keeps (Yields-check b ret)

  pub Keeps-assert : (b : Bool) → Yields I Anything (avb_assert b)
  Keeps-assert b = Keeps (Yields-assert b)

  pub Keeps-or_io : (io_ret : AvbIoResult) → Yields I Anything (or_io io_ret)
  Keeps-or_io io_ret = Keeps (Yields-or_io io_ret)

  pub Keeps-if :
      {A : Type 0} (b : Bool) (m n : Exec Store A)
      → Yields I Anything m
      → Yields I Anything n
      → Yields I Anything (if b then m else n)
  Keeps-if b m n km kn = Yields-if b m n (λ _. km) (λ _. kn)

  pub Keeps-if_null :
      {A B : Type 0} (o : Option A) (m : Exec Store B) (f : A → Exec Store B)
      → Yields I Anything m
      → ((a : A) → Yields I Anything (f a))
      → Yields I Anything (if_null o m f)
  Keeps-if_null o m f km kf = Yields-if_null o m f (λ _. km) (λ a _. kf a)

  pub Keeps-bind :
      {A B : Type 0} (m : Exec Store A) (f : A → Exec Store B)
      → Yields I Anything m
      → ((a : A) → Yields I Anything (f a))
      → Yields I Anything (m >>= f)
  Keeps-bind m f km kf = Yields-bind km (λ a _. kf a)

  pub Keeps-then :
      {A B : Type 0} {G : B → Type 0} {m : Exec Store A} {f : A → Exec Store B}
      → Yields I Anything m
      → ((a : A) → Yields I G (f a))
      → Yields I G (m >>= f)
  Keeps-then km kf = Yields-bind km (λ a _. kf a)

  pub ruleset keeps_rules = (
    Keeps-pure, Yields-leave, Yields-abort, Yields-undefined, Keeps-if, Keeps-if_null, Keeps-lift,
    Keeps-or_leave, Keeps-check, Keeps-assert, Keeps-or_io, Keeps-bind, Yields-function,
  )
