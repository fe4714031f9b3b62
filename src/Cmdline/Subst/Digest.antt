-- ===== src/Cmdline/Subst/Digest.antt =====
-- `avb_add_root_digest_substitution`: what it adds, and the bound of the list.
use android_boot_image_edito.Util.Text.{avb_bin2hex, avb_strdupv, avb_uppercase, hex_loop}
use android_boot_image_edito.Cmdline.Subst.{
  add_value, add_token, AvbCmdlineSubstList, avb_add_root_digest_substitution,
}
use android_boot_image_edito.Common.{
  length-append, ◌≤◌, ◌<◌, ◌≡◌, ◌⊎◌, refl, arith, inl, inr, Bool-cases, IsBytes, ◌+◌, Bool, false,
  ◌||◌, leb, ltb, Option, none, some, Bytes, [], ◌∷◌, ◌++◌, length,
}
use android_boot_image_edito.Heap.{Heap, Plenty}
use android_boot_image_edito.Ops.{AvbSlotVerifyResult, result_ok}
use android_boot_image_edito.Util.Text.Join.{strdupv_length-total}
use android_boot_image_edito.Util.Text.Hex.{decode_hex, decode_hex-hex_loop}
use android_boot_image_edito.Cmdline.Words.{digest_prefix, digest_suffix}

strdupv-Plenty :
    (name : Bytes)
    → length name < 32
    → avb_strdupv digest_prefix (name ∷ digest_suffix ∷ []) Plenty
      ≡ some (some (digest_prefix ++ (name ++ digest_suffix)), Plenty)
unfolding avb_strdupv
strdupv-Plenty name h =
    let sum =
      strdupv_length-total 0 0 digest_prefix (name ∷ digest_suffix ∷ []) (omega arith)
        (omega arith) in
    rw (sum, avb_strdupv)

-- The second string is the first one with the letters a to z in upper case, and nothing else
-- changed.
abbrev pub IsUpperOf : Bytes → Bytes → Type 0
IsUpperOf [] [] = Unit
IsUpperOf [] (d ∷ upper) = ⊥
IsUpperOf (c ∷ str) [] = ⊥
IsUpperOf (c ∷ str) (d ∷ upper) =
    (((97 ≤ c) × (c ≤ 122) × (d + 32 ≡ c)) ⊎ (((c < 97) ⊎ (122 < c)) × (d ≡ c)))
    × IsUpperOf str upper

uppercase-IsUpperOf : (str : Bytes) → IsUpperOf str (avb_uppercase str)
unfolding avb_uppercase
uppercase-IsUpperOf [] = tt
uppercase-IsUpperOf (c ∷ str) = (ground arith, uppercase-IsUpperOf str)

-- With memory to spare, a name of less than 32 bytes, a digest of at most 64 bytes and a list that
-- is not full, the list grows by the token `$(AVB_<name>_ROOT_DIGEST)` in upper case, with a value
-- from whose hexadecimal digits the digest is read back.
pub add_root_digest_exact :
    (debug : Bool) (part_name digest : Bytes) (list : AvbCmdlineSubstList)
    → length part_name < 32
    → IsBytes digest
    → length digest ≤ 64
    → length list < 10
    → (token : Bytes) × (hex : Bytes) × IsUpperOf
        (digest_prefix ++ (part_name ++ digest_suffix))
        token
      × (decode_hex hex ≡ digest)
      × (avb_add_root_digest_substitution debug part_name digest list Plenty
          ≡ some ((result_ok, list ++ ((token, hex) ∷ [])), Plenty))
unfolding avb_add_root_digest_substitution add_token add_value avb_bin2hex
add_root_digest_exact debug part_name digest list a bytes b c =
    let sizes : (leb 32 (length part_name) || ltb 64 (length digest)) ≡ false = ground arith in
    let room : leb 10 (length list) ≡ false = ground arith in
    let token = strdupv-Plenty part_name a in
    (
      avb_uppercase (digest_prefix ++ (part_name ++ digest_suffix)),
      hex_loop digest,
      uppercase-IsUpperOf (digest_prefix ++ (part_name ++ digest_suffix)),
      decode_hex-hex_loop digest bytes,
      rw (sizes, room, token, avb_add_root_digest_substitution),
    )

-- What holds of every outcome.
abbrev pub Kept :
    AvbCmdlineSubstList → Option ((AvbSlotVerifyResult × AvbCmdlineSubstList) × Heap) → Type 0
Kept list none = Unit
Kept list (some ((r, list'), heap)) =
    (length list' ≤ 10) × ((list' ≡ list) ⊎ ((r ≡ result_ok) × (length list' ≡ length list + 1)))

add_value-Kept :
    (token : Bytes) (list : AvbCmdlineSubstList) (value : Option Bytes × Heap)
    → leb 10 (length list) ≡ false
    → Kept list (add_value token list value)
unfolding add_value
add_value-Kept token list (none, heap) room = (ground arith, inl refl)
add_value-Kept token list (some hex, heap) room =
    let grown : length (list ++ ((avb_uppercase token, hex) ∷ [])) ≡ length list + 1 =
      length-append list ((avb_uppercase token, hex) ∷ []) in
    (ground arith, inr (refl, grown))

add_token-Kept :
    (digest : Bytes) (list : AvbCmdlineSubstList)
    → leb 10 (length list) ≡ false
    → (token : Option (Option Bytes × Heap)) → Kept list (add_token digest list token)
unfolding add_token
add_token-Kept digest list room none = tt
add_token-Kept digest list room (some (none, heap)) = (ground arith, inl refl)
add_token-Kept digest list room (some (some token, heap)) =
    add_value-Kept token list (avb_bin2hex digest heap) room

-- Whatever the arguments and the heap are, when the call returns, a list of at most 10
-- substitutions, the size of the arrays, is still one, and it has changed, by one substitution,
-- only when the result is `OK`.
pub add_root_digest_bounded :
    (debug : Bool) (part_name digest : Bytes) (list : AvbCmdlineSubstList) (heap : Heap)
    → length list ≤ 10
    → Kept list (avb_add_root_digest_substitution debug part_name digest list heap)
unfolding avb_add_root_digest_substitution
add_root_digest_bounded debug part_name digest list heap h =
    elim (Bool-cases (leb 32 (length part_name) || ltb 64 (length digest))) [
      | inl bad ↦ elim (Bool-cases debug) [
        | inl on ↦ rw (bad, on) tt
        | inr off ↦ rw (bad, off) (h, inl refl)
      ]
      | inr good ↦ elim (Bool-cases (leb 10 (length list))) [
        | inl full ↦ rw (good, full) (h, inl refl)
        | inr room ↦
            rw (good, room)
              (add_token-Kept digest list room
                (avb_strdupv digest_prefix (part_name ∷ digest_suffix ∷ []) heap))
      ]
    ]
