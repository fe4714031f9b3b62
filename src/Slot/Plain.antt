-- ===== src/Slot/Plain.antt =====
-- The rules for what leaves the slot data as it is, without facts about values, for `search`.
use android_boot_image_edito.Common.{◌≢◌, Bool, if◌then◌else◌, Option, none, some}
use android_boot_image_edito.Ops.{AvbSlotVerifyResult, result_ok}
use android_boot_image_edito.Slot.Exec.{Exec, pure, leave, or_leave, if_null, ◌>>=◌, check}
use android_boot_image_edito.Slot.Does.{
  Does, Same, Any, Does-pure, Does-leave, Does-or_leave, Does-check, Does-undefined, Does-or_io,
  Does-allocated, Does-if, Does-bind, Does-weaken, oom_bad, io_bad, verification_bad, metadata_bad,
}

module _ {Store : Type 0} where
  pub plain : {A : Type 0} {F : A → Type 0} {m : Exec Store A} → Does (Same F) m → Does (Same Any) m
  plain k = Does-weaken k (λ a d d' f. (tt, f.1))

  pub Plain-pure : {A : Type 0} (a : A) → Does {Store = Store} (Same Any) (pure a)
  Plain-pure a = Does-pure a tt

  pub Plain-or_leave :
      {A : Type 0} (o : Option A) (ret : AvbSlotVerifyResult)
      → ret ≢ result_ok
      → Does {Store = Store} (Same Any) (or_leave o ret)
  Plain-or_leave o ret bad = plain (Does-or_leave o ret bad)

  pub Plain-check :
      (b : Bool) (ret : AvbSlotVerifyResult)
      → ret ≢ result_ok
      → Does {Store = Store} (Same Any) (check b ret)
  Plain-check b ret bad = plain (Does-check b ret bad)

  pub Plain-leave :
      {A : Type 0} (ret : AvbSlotVerifyResult)
      → ret ≢ result_ok
      → Does {Store = Store} {A = A} (Same Any) (leave ret)
  Plain-leave ret bad = Does-leave ret bad

  pub Plain-if :
      {A : Type 0} (b : Bool) (m n : Exec Store A)
      → Does (Same Any) m
      → Does (Same Any) n
      → Does (Same Any) (if b then m else n)
  Plain-if b m n km kn = Does-if b m n (λ _. km) (λ _. kn)

  pub Plain-bind :
      {A B : Type 0} (m : Exec Store A) (f : A → Exec Store B)
      → Does (Same Any) m
      → ((a : A) → Does (Same Any) (f a))
      → Does (Same Any) (m >>= f)
  Plain-bind m f km kf = Does-bind km (λ a _. kf a)

  pub Plain-if_null :
      {A B : Type 0} (o : Option A) (m : Exec Store B) (f : A → Exec Store B)
      → Does (Same Any) m
      → ((a : A) → Does (Same Any) (f a))
      → Does (Same Any) (if_null o m f)
  Plain-if_null none m f km kf = km
  Plain-if_null (some a) m f km kf = kf a

  pub ruleset plain_rules = (
    Plain-pure, Plain-or_leave, Plain-check, Plain-leave, Plain-if, Plain-bind, Plain-if_null,
    Does-undefined, Does-or_io, Does-allocated, oom_bad, io_bad, verification_bad, metadata_bad,
  )
