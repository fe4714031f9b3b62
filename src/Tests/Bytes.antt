-- ===== src/Tests/Bytes.antt =====
-- A check of concrete bytes.
use android_boot_image_edito.Common.{
  ◌&&◌, ltb, ltb→lt, Bool, true, false, ◌≡◌, Bytes, IsBytes, [], ◌∷◌,
}

abbrev pub all_bytes : Bytes → Bool
all_bytes [] = true
all_bytes (b ∷ bs) = ltb b 256 && all_bytes bs

and_true : (a b : Bool) → (a && b) ≡ true → (a ≡ true) × (b ≡ true)
and_true true b e = (λ i. true, e)
and_true false b e = cc e

pub all_bytes-IsBytes : (bs : Bytes) → all_bytes bs ≡ true → IsBytes bs
all_bytes-IsBytes [] e = tt
all_bytes-IsBytes (b ∷ bs) e =
    let (first, others) = and_true (ltb b 256) (all_bytes bs) e in
    (ltb→lt b 256 first, all_bytes-IsBytes bs others)
