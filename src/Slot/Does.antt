-- ===== src/Slot/Does.antt =====
-- What a computation does to the slot data, with errors told from `OK`.
use android_boot_image_edito.Common.{
  ◌≡◌, ◌≢◌, refl, subst, arith, Bool, true, false, if◌then◌else◌, Option, none, some, inl, inr,
  Bool-cases,
}
use android_boot_image_edito.Memory.{Run, ok, fault}
use android_boot_image_edito.Heap.{malloc}
use android_boot_image_edito.Ops.{
  AvbIoResult, AvbSlotVerifyResult, result_ok, result_error_oom, result_error_io,
  result_error_verification, result_error_invalid_metadata,
}
use android_boot_image_edito.Slot.Exec.{
  AvbSlotVerifyData, SlotState, Outcome, done, left, aborted, outside, out_of_fuel, Exec, pure,
  leave, undefined, lift, or_leave, if_null, continue, ◌>>=◌, check, or_io, allocated, function,
  returned_as,
}

-- `G` relates the value and the slot data before and after; a computation that leaves does so with
-- an error, and the slot data is as it was.
abbrev pub Did :
    {Store A : Type 0}
    → (A → AvbSlotVerifyData → AvbSlotVerifyData → Type 0)
    → AvbSlotVerifyData
    → Outcome Store A
    → Type 0
Did G d (done a s) = G a d s.slot_data
Did G d (left ret s) = (ret ≢ result_ok) × (s.slot_data ≡ d)
Did G d aborted = Unit
Did G d outside = Unit
Did G d out_of_fuel = Unit

pub record Does {Store A : Type 0} (G : A → AvbSlotVerifyData → AvbSlotVerifyData → Type 0)
    (m : Exec Store A) : Type 0 where
  pub at : (s : SlotState Store) → Did G (s.slot_data) (m s)

-- The slot data is left as it is, and the value has a property.
abbrev pub Same : {A : Type 0} → (A → Type 0) → A → AvbSlotVerifyData → AvbSlotVerifyData → Type 0
Same F a d d' = F a × (d' ≡ d)

abbrev pub Any : {A : Type 0} → A → Type 0
Any a = Unit

pub oom_bad : result_error_oom ≢ result_ok
oom_bad e = cc e

pub io_bad : result_error_io ≢ result_ok
io_bad e = cc e

pub verification_bad : result_error_verification ≢ result_ok
verification_bad e = cc e

pub metadata_bad : result_error_invalid_metadata ≢ result_ok
metadata_bad e = cc e

module _ {Store : Type 0} where
  pub Does-pure :
      {A : Type 0} {F : A → Type 0} (a : A) → F a → Does {Store = Store} (Same F) (pure a)
  unfolding pure
  Does-pure a f = record { at = λ s. (f, refl) }

  pub Does-leave :
      {A : Type 0} {F : A → Type 0} (ret : AvbSlotVerifyResult)
      → ret ≢ result_ok
      → Does {Store = Store} (Same F) (leave ret)
  unfolding leave
  Does-leave ret bad = record { at = λ s. (bad, refl) }

  pub Does-lift : {A : Type 0} (r : Run A) → Does {Store = Store} (Same (λ a. r ≡ ok a)) (lift r)
  unfolding lift
  Does-lift (ok a) = record { at = λ s. (refl, refl) }
  Does-lift fault = record { at = λ s. tt }

  pub Does-or_leave :
      {A : Type 0} (o : Option A) (ret : AvbSlotVerifyResult)
      → ret ≢ result_ok
      → Does {Store = Store} (Same (λ a. o ≡ some a)) (or_leave o ret)
  unfolding or_leave
  Does-or_leave none ret bad = record { at = λ s. (bad, refl) }
  Does-or_leave (some a) ret bad = record { at = λ s. (refl, refl) }

  pub Does-check :
      (b : Bool) (ret : AvbSlotVerifyResult)
      → ret ≢ result_ok
      → Does {Store = Store} (Same (λ _. b ≡ true)) (check b ret)
  unfolding check
  Does-check true ret bad = record { at = λ s. (refl, refl) }
  Does-check false ret bad = record { at = λ s. (bad, refl) }

  pub Does-undefined : {A : Type 0} {F : A → Type 0} → Does {Store = Store} (Same F) undefined
  unfolding undefined
  Does-undefined = record { at = λ s. tt }

  pub Does-or_io : (io_ret : AvbIoResult) → Does {Store = Store} (Same Any) (or_io io_ret)
  unfolding or_io
  Does-or_io io_ret = record { at = λ s. ground arith }

  pub Does-allocated : Does {Store = Store} (Same Any) allocated
  unfolding allocated
  Does-allocated = record {
    at = λ s. elim (Bool-cases ((malloc s.heap).0)) [
      | inl got ↦ rw got (tt, refl)
      | inr failed ↦ rw failed (oom_bad, refl)
    ];
  }

  pub Does-if :
      {A : Type 0} {G : A → AvbSlotVerifyData → AvbSlotVerifyData → Type 0} (b : Bool)
      (m n : Exec Store A)
      → (b ≡ true → Does G m)
      → (b ≡ false → Does G n)
      → Does G (if b then m else n)
  Does-if true m n km kn = km refl
  Does-if false m n km kn = kn refl

  pub Does-if_null :
      {A B : Type 0} {G : B → AvbSlotVerifyData → AvbSlotVerifyData → Type 0} (o : Option A)
      (m : Exec Store B) (f : A → Exec Store B)
      → Does G m
      → ((a : A) → Does G (f a))
      → Does G (if_null o m f)
  Does-if_null none m f km kf = km
  Does-if_null (some a) m f km kf = kf a

  module _ {A B : Type 0} {F : A → Type 0}
      {G : B → AvbSlotVerifyData → AvbSlotVerifyData → Type 0} where
    continue_does :
        (d : AvbSlotVerifyData) (o : Outcome Store A) {f : A → Exec Store B}
        → Did (Same F) d o
        → ((a : A) → F a → Does G (f a))
        → Did G d (continue o f)
    continue_does d (done a s) {f} h k = subst (λ x. Did G x (f a s)) (h.1) ((k a (h.0)).at s)
    continue_does d (left ret s) h k = h
    continue_does d aborted h k = tt
    continue_does d outside h k = tt
    continue_does d out_of_fuel h k = tt

    pub Does-bind :
        {m : Exec Store A} {f : A → Exec Store B}
        → Does (Same F) m
        → ((a : A) → F a → Does G (f a))
        → Does G (m >>= f)
    unfolding ◌>>=◌
    Does-bind {m} km kf = record { at = λ s. continue_does (s.slot_data) (m s) (km.at s) kf }

  pub Does-weaken :
      {A : Type 0} {G H : A → AvbSlotVerifyData → AvbSlotVerifyData → Type 0} {m : Exec Store A}
      → Does G m
      → ((a : A) (d d' : AvbSlotVerifyData) → G a d d' → H a d d')
      → Does H m
  Does-weaken {A} {G} {H} {m} k w = record { at = λ s. weakened s (m s) (k.at s) }
    where
      weakened :
          (s : SlotState Store) (o : Outcome Store A)
          → Did G (s.slot_data) o
          → Did H (s.slot_data) o
      weakened s (done a s') h = w a (s.slot_data) (s'.slot_data) h
      weakened s (left ret s') h = h
      weakened s aborted h = tt
      weakened s outside h = tt
      weakened s out_of_fuel h = tt

  -- The body of a function, as its caller sees it: `OK` is an answer that it reached.
  pub Does-function :
      {F : Type 0} {m : Exec Store AvbSlotVerifyResult}
      → Does (Same (λ ret. F)) m
      → Does (Same (λ ret. ret ≡ result_ok → F)) (function m)
  unfolding function
  Does-function {F} {m} k = record { at = λ s. answered s (m s) (k.at s) }
    where
      answered :
          (s : SlotState Store) (o : Outcome Store AvbSlotVerifyResult)
          → Did (Same (λ (ret : AvbSlotVerifyResult). F)) (s.slot_data) o
          → Did
              (Same (λ (ret : AvbSlotVerifyResult). ret ≡ result_ok → F))
              (s.slot_data)
              (returned_as o)
      answered s (done ret s') h = ((λ e. h.0), h.1)
      answered s (left ret s') h = ((λ e. absurd (h.0 e)), h.1)
      answered s aborted h = tt
      answered s outside h = tt
      answered s out_of_fuel h = tt

  -- The answer of a function whose slot data may change when it is `OK`.
  pub Does-answer :
      {F : AvbSlotVerifyData → AvbSlotVerifyData → Type 0} {m : Exec Store AvbSlotVerifyResult}
      → Does (λ ret d d'. ret ≡ result_ok → F d d') m
      → Does (λ ret d d'. ret ≡ result_ok → F d d') (function m)
  unfolding function
  Does-answer {F} {m} k = record { at = λ s. answered s (m s) (k.at s) }
    where
      answered :
          (s : SlotState Store) (o : Outcome Store AvbSlotVerifyResult)
          → Did (λ ret d d'. ret ≡ result_ok → F d d') (s.slot_data) o
          → Did (λ ret d d'. ret ≡ result_ok → F d d') (s.slot_data) (returned_as o)
      answered s (done ret s') h = h
      answered s (left ret s') h = λ e. absurd (h.0 e)
      answered s aborted h = tt
      answered s outside h = tt
      answered s out_of_fuel h = tt
