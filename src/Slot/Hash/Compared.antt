-- ===== src/Slot/Hash/Compared.antt =====
-- What the digest test of a hash partition shows.
use android_boot_image_edito.Common.{
  ◌≤◌, ltb, ◌++◌, ℕ, ◌+◌, ◌≡◌, ◌≢◌, refl, arith, Bool, true, inl, inr, Bool-cases, some, Bytes,
  IsBytes, List, [], ◌∷◌, length, take, drop, take_all, IsBytes-drop, ◌==◌, ◌∙◌, subst, sym, ap,
}
use android_boot_image_edito.Memory.{ok, read}
use android_boot_image_edito.Util.Compare.{avb_safe_memcmp, memcmp_agrees}
use android_boot_image_edito.Crypto.{Primitives}
use android_boot_image_edito.Descriptor.{AvbHashDescriptor}
use android_boot_image_edito.Ops.{AvbOps, result_ok}
use android_boot_image_edito.Slot.Does.{
  Does-if, Does, Same, metadata_bad, verification_bad, Does-pure, Does-check, Does-bind, Does-lift,
  Does-or_leave,
}
use android_boot_image_edito.Slot.Load.{strcmp_equal}
use android_boot_image_edito.Slot.Hash.{
  word_sha256, word_sha512, image_digest, size_to_hash, wanted_digest, check_digest,
}
use android_boot_image_edito.Descriptor.Foreach.Region.{same_bytes_sound}
use android_boot_image_edito.Slot.Hash.Loads.{measured, Plain-read_persistent_digest}

-- The digest of the salt with the image behind it, by the algorithm with this name.
pub data IsDigest (crypto : Primitives) (hash_algorithm salt image : Bytes) : Bytes → Type 0 where
  -- "sha256"
  by_sha256 :
      take 7 hash_algorithm ≡ 115 ∷ 104 ∷ 97 ∷ 50 ∷ 53 ∷ 54 ∷ 0 ∷ []
      → IsDigest crypto hash_algorithm salt image (crypto.sha256 (salt ∷ image ∷ []))
  -- "sha512"
  by_sha512 :
      take 7 hash_algorithm ≡ 115 ∷ 104 ∷ 97 ∷ 53 ∷ 49 ∷ 50 ∷ 0 ∷ []
      → IsDigest crypto hash_algorithm salt image (crypto.sha512 (salt ∷ image ∷ []))

-- The image has a digest by the descriptor's algorithm, and the digest is the one that stands
-- behind the name and the salt in the descriptor, unless that one has no bytes.
pub record HasDigest (crypto : Primitives) (memory : Bytes) (hash_desc : AvbHashDescriptor)
    (image : Bytes) : Type 0 where
  pub salt : Bytes
  pub digest : Bytes
  pub salted : read memory (132 + hash_desc.partition_name_len) hash_desc.salt_len ≡ ok salt
  pub computed : IsDigest crypto hash_desc.hash_algorithm salt image digest
  pub sized : hash_desc.digest_len ≢ 0 → length digest ≡ hash_desc.digest_len
  pub agrees :
      hash_desc.digest_len ≢ 0
      → digest
        ≡ take hash_desc.digest_len
            (drop (132 + hash_desc.partition_name_len + hash_desc.salt_len) memory)

-- `expected_digest` and its length, for a descriptor with a digest.
abbrev Wanted : Bytes → AvbHashDescriptor → Bytes × ℕ → Type 0
Wanted memory hash_desc expected =
    hash_desc.digest_len ≢ 0
    → expected ≡ (
      drop (132 + hash_desc.partition_name_len + hash_desc.salt_len) memory,
      hash_desc.digest_len,
    )

strcmp_equal_sound :
    (memory word : Bytes)
    → strcmp_equal memory word ≡ true
    → take (length word + 1) memory ≡ word ++ (0 ∷ [])
unfolding strcmp_equal
strcmp_equal_sound memory word e =
    same_bytes_sound (take (length word + 1) memory) (word ++ (0 ∷ [])) e

image_digest-IsDigest :
    (crypto : Primitives) (hash_algorithm salt image digest : Bytes)
    → image_digest crypto hash_algorithm salt image ≡ some digest
    → IsDigest crypto hash_algorithm salt image digest
unfolding image_digest
image_digest-IsDigest crypto hash_algorithm salt image digest e =
    elim (Bool-cases (strcmp_equal hash_algorithm word_sha256)) [
      | inl h ↦
          subst (IsDigest crypto hash_algorithm salt image) (cc (rw h at e))
            (by_sha256 (strcmp_equal_sound hash_algorithm word_sha256 h))
      | inr h ↦ elim (Bool-cases (strcmp_equal hash_algorithm word_sha512)) [
        | inl k ↦
            subst (IsDigest crypto hash_algorithm salt image) (cc (rw (h, k) at e))
              (by_sha512 (strcmp_equal_sound hash_algorithm word_sha512 k))
        | inr k ↦ absurd (cc (rw (h, k) at e))
      ]
    ]

IsDigest-IsBytes :
    (crypto : Primitives) (hash_algorithm salt image digest : Bytes)
    → IsDigest crypto hash_algorithm salt image digest
    → IsBytes digest
IsDigest-IsBytes crypto hash_algorithm salt image _ (by_sha256 named) =
    crypto.sha256-IsBytes (salt ∷ image ∷ [])
IsDigest-IsBytes crypto hash_algorithm salt image _ (by_sha512 named) =
    crypto.sha512-IsBytes (salt ∷ image ∷ [])

-- What the comparison of the digests shows.
same_digest :
    (digest memory : Bytes) (k n r : ℕ) (expected : Bytes × ℕ)
    → IsBytes digest
    → IsBytes memory
    → expected ≡ (drop k memory, n)
    → (length digest == expected.1) ≡ true
    → avb_safe_memcmp digest expected.0 (length digest) ≡ ok r
    → (r == 0) ≡ true
    → (length digest ≡ n) × (digest ≡ take n (drop k memory))
same_digest digest memory k n r expected db mb e l c z =
    let size : length digest ≡ n = measured (length digest) n (rw (sym (ap (λ x. x.1) e)) l) in
    let bytes : IsBytes (expected.0) = rw (ap (λ x. x.0) e) (IsBytes-drop k memory mb) in
    let same = memcmp_agrees digest expected.0 (length digest) r db bytes c (measured r 0 z) in
    (
      size,
      sym (take_all (length digest) digest (omega arith))
          ∙ same
          ∙ ap (λ x. take (length digest) x.0) e
          ∙ ap (λ x. take x (drop k memory)) size,
    )

module _ {Store : Type 0} (crypto : Primitives) (ops : AvbOps Store) (names : List Bytes)
    (ab_suffix : Bytes) (allow : Bool) (memory : Bytes) (desc : AvbHashDescriptor) where
  Does-wanted_digest :
      (part_name digest : Bytes)
      → Does
          (Same (Wanted memory desc))
          (wanted_digest crypto ops names ab_suffix allow memory desc part_name digest)
  unfolding wanted_digest
  Does-wanted_digest part_name digest =
      Does-if (desc.digest_len == 0) _ _
        (λ e.
          Does-bind (Plain-read_persistent_digest ops part_name (length digest) (some digest))
            (λ stored _.
              Does-pure (stored, length digest) (λ k. absurd (k (measured desc.digest_len 0 e)))))
        (λ e. Does-pure _ (λ k. refl))

  -- What is hashed is what the descriptor's size takes of the image.
  take-size_to_hash :
      (size : ℕ) (image_buf : Bytes)
      → length image_buf ≡ size
      → take (size_to_hash desc size) image_buf ≡ take desc.image_size image_buf
  take-size_to_hash size image_buf whole = elim (Bool-cases (ltb size desc.image_size)) [
    | inl less ↦
        let small : size ≤ desc.image_size = ground (arith, less) in
        rw less (
          take_all size image_buf (omega (arith, whole))
          ∙ sym (take_all desc.image_size image_buf (omega (arith, whole, small))))
    | inr enough ↦ rw enough refl
  ]

  pub Does-check_digest :
      IsBytes memory
      → (part_name : Bytes) (size : ℕ) (image_buf : Bytes) → length image_buf ≡ size
      → Does
          (Same (λ ret. HasDigest crypto memory desc (take desc.image_size image_buf)))
          (check_digest crypto ops names ab_suffix allow memory desc part_name size image_buf)
  unfolding check_digest
  Does-check_digest mb part_name size image_buf whole = Does-bind (Does-lift _) (λ salt salted.
      Does-bind (Does-or_leave _ _ metadata_bad) (λ digest found_digest.
        let computed : IsDigest crypto desc.hash_algorithm salt (take desc.image_size image_buf)
            digest =
          image_digest-IsDigest crypto desc.hash_algorithm salt _ digest (
            subst (λ part. image_digest crypto desc.hash_algorithm salt part ≡ some digest)
              (take-size_to_hash size image_buf whole) found_digest) in
        Does-bind (Does-wanted_digest part_name digest) (λ expected wanted.
          Does-bind (Does-check _ _ metadata_bad) (λ _ sized.
            Does-bind (Does-lift _) (λ differs compared.
              Does-bind (Does-check _ _ verification_bad) (λ _ same.
                let found : desc.digest_len ≢ 0 → _ = λ k.
                  same_digest digest memory _ _ differs expected
                    (IsDigest-IsBytes crypto desc.hash_algorithm salt _ digest computed) mb
                    (wanted k) sized compared same in
                Does-pure result_ok (record {
                  salt = salt;
                  digest = digest;
                  salted = salted;
                  computed = computed;
                  sized = λ k. (found k).0;
                  agrees = λ k. (found k).1;
                })))))))
