-- ===== src/Descriptor/Laws.antt =====
-- Which descriptors the five functions accept, in plain arithmetic.
use android_boot_image_edito.Common.{
  not, ltb, Option-cases, inl, inr, ◌⊎◌, sym, ◌∙◌, ℕ, ◌+◌, ◌%◌, ◌≤◌, ◌<◌, ◌^◌, ◌≡◌, refl, ◌↔◌,
  arith, Bool, true, Option, none, some, Bytes, List, [], ◌∷◌, length, All, take, IsBytes,
  IsBytes-take,
}
use android_boot_image_edito.Common.Bits.{bit_and_seven}
use android_boot_image_edito.Memory.{Run, ok, slice, read-ok}
use android_boot_image_edito.Util.Endian.{be32, be64}
use android_boot_image_edito.Util.Endian.Laws.{be32-lt, be64-lt}
use android_boot_image_edito.Util.Checked.{avb_safe_add_to}
use android_boot_image_edito.Descriptor.Layout.{
  PropertyAt, property_fields-PropertyAt, HashAt, hash_fields-HashAt, HashtreeAt,
  hashtree_fields-HashtreeAt, KernelCmdlineAt, kernel_cmdline_fields-KernelCmdlineAt,
  ChainPartitionAt, chain_partition_fields-ChainPartitionAt,
}
use android_boot_image_edito.Descriptor.{
  AvbPropertyDescriptor, AvbHashDescriptor, AvbHashtreeDescriptor, AvbKernelCmdlineDescriptor,
  AvbChainPartitionDescriptor, AvbDescriptor, avb_descriptor_validate_and_byteswap, add_sizes,
  payload_fits, validate, property_fields, avb_property_descriptor_validate_and_byteswap,
  hash_fields, avb_hash_descriptor_validate_and_byteswap, hashtree_fields,
  avb_hashtree_descriptor_validate_and_byteswap, kernel_cmdline_fields,
  avb_kernel_cmdline_descriptor_validate_and_byteswap, chain_partition_fields,
  avb_chain_partition_descriptor_validate_and_byteswap,
}

abbrev pub sum : List ℕ → ℕ
sum [] = 0
sum (n ∷ ns) = n + sum ns

abbrev IsWord : ℕ → Type 0
IsWord n = n < 2 ^ 64

-- A chain of checked additions that passes has the true sum, which fits 64 bits.
add_sizes-exact :
    (start : ℕ) (sizes : List ℕ) (total : ℕ)
    → IsWord start
    → All IsWord sizes
    → (add_sizes start sizes ≡ some total) ↔ ((total ≡ start + sum sizes) × (total < 2 ^ 64))
unfolding add_sizes avb_safe_add_to
add_sizes-exact start [] total p h = ground arith
add_sizes-exact start (n ∷ ns) total p h =
    ground (arith, add_sizes-exact ((start + n) % 2 ^ 64) ns total (omega arith) h.1)

payload_fits-exact :
    (start : ℕ) (sizes : List ℕ) (following : ℕ)
    → IsWord start
    → All IsWord sizes
    → IsWord following
    → (payload_fits start sizes following ≡ true) ↔ (start + sum sizes ≤ following)
unfolding payload_fits
payload_fits-exact start sizes following p h q = elim (Option-cases (add_sizes start sizes)) [
  | inl e ↦ (
    (λ t. absurd (cc (rw (e, payload_fits) at t))),
    λ t.
        absurd (
          cc (sym e ∙ (add_sizes-exact start sizes (start + sum sizes) p h).1 (refl, omega arith))),
  )
  | inr (total, e) ↦
      let exact = (add_sizes-exact start sizes total p h).0 e in rw (e, payload_fits) (ground arith)
]

-- The descriptor has the tag, its size is a multiple of 8, and `fixed` bytes and the variable
-- parts, at their true sum, fit behind the common header.
abbrev pub Contained : ℕ → ℕ → List ℕ → AvbDescriptor → Type 0
Contained tag fixed sizes parent =
    (parent.num_bytes_following % 8 ≡ 0)
    × (parent.tag ≡ tag)
    × (fixed + sum sizes ≤ parent.num_bytes_following)

-- The function reads nothing outside the struct; it returns the fields if `P`, and refuses if not.
abbrev pub Outcome : {A : Type 0} → Run (Option A) → A → Type 0 → Type 0
Outcome r dest P = ((r ≡ ok (some dest)) × P) ⊎ ((r ≡ ok none) × ¬ P)

validate-Outcome :
    {A : Type 0} (src : Bytes) (tag : ℕ) (extra : Bool) (fixed : ℕ) (sizes : List ℕ) (dest : A)
    → IsWord fixed
    → All IsWord sizes
    → Outcome
        (ok (validate src tag extra fixed sizes dest))
        dest
        ((extra ≡ true) × Contained tag fixed sizes (avb_descriptor_validate_and_byteswap src).0)
unfolding validate avb_descriptor_validate_and_byteswap
validate-Outcome src tag extra fixed sizes dest p h = ground (
  arith,
  bit_and_seven (be64 src 8),
  payload_fits-exact fixed sizes (be64 src 8) p h (be64-lt src 8),
)

plain :
    {A : Type 0} {r : Run (Option A)} {dest : A} {P : Type 0}
    → Outcome r dest ((true ≡ true) × P)
    → Outcome r dest P
plain (inl (e, p)) = inl (e, p.1)
plain (inr (e, n)) = inr (e, λ p. n (refl, p))

-- The condition of the chain descriptor as an order.
located :
    {A : Type 0} {r : Run (Option A)} {dest : A} {b : Bool} {P Q : Type 0}
    → Outcome r dest ((b ≡ true) × P)
    → ((b ≡ true) ↔ Q)
    → Outcome r dest (Q × P)
located (inl (e, p)) i = inl (e, (i.0 p.0, p.1))
located (inr (e, n)) i = inr (e, λ p. n (i.1 p.0, p.1))

word : {n : ℕ} → n < 2 ^ 32 → IsWord n
word h = omega arith

property_check :
    (src : Bytes)
    → 32 ≤ length src
    → Outcome
        (avb_property_descriptor_validate_and_byteswap src)
        (property_fields (slice src 0 32))
        (Contained 0 18
          ((property_fields (slice src 0 32)).key_num_bytes
            ∷ (property_fields (slice src 0 32)).value_num_bytes
            ∷ [])
          (property_fields (slice src 0 32)).parent_descriptor)
unfolding avb_property_descriptor_validate_and_byteswap property_fields
property_check src h =
    let copy : Bytes = slice src 0 32 in
    rw (read-ok src 0 32 h) (
      plain (
        validate-Outcome copy 0 true 18 (be64 copy 16 ∷ be64 copy 24 ∷ []) (property_fields copy)
          (omega arith) (be64-lt copy 16, (be64-lt copy 24, tt))))

-- The property descriptor's check is exactly that the tag is `PROPERTY`, the size is a multiple
-- of 8, and key and value with their two NUL bytes fit the descriptor at their true sum. The
-- fields that it hands out are the numbers at their places in the packed struct, first byte most
-- significant, and the bytes of the arrays there. 32 readable bytes are enough for it, and the
-- memory is bytes.
pub property_exact :
    (src : Bytes)
    → IsBytes src
    → 32 ≤ length src
    → (dest : AvbPropertyDescriptor) × PropertyAt (take 32 src) dest
      × Outcome
          (avb_property_descriptor_validate_and_byteswap src)
          dest
          (Contained 0 18 (dest.key_num_bytes ∷ dest.value_num_bytes ∷ []) dest.parent_descriptor)
property_exact src ib h = (
  property_fields (take 32 src),
  property_fields-PropertyAt (take 32 src) (IsBytes-take 32 src ib),
  property_check src h,
)

hash_check :
    (src : Bytes)
    → 132 ≤ length src
    → Outcome (avb_hash_descriptor_validate_and_byteswap src) (hash_fields (slice src 0 132)) (
        Contained 2 116
          ((hash_fields (slice src 0 132)).partition_name_len
            ∷ (hash_fields (slice src 0 132)).salt_len
            ∷ (hash_fields (slice src 0 132)).digest_len
            ∷ [])
          (hash_fields (slice src 0 132)).parent_descriptor)
unfolding avb_hash_descriptor_validate_and_byteswap hash_fields
hash_check src h =
    let copy : Bytes = slice src 0 132 in
    rw (read-ok src 0 132 h) (
      plain (
        validate-Outcome copy 2 true 116 (be32 copy 56 ∷ be32 copy 60 ∷ be32 copy 64 ∷ [])
          (hash_fields copy) (omega arith)
          (word (be32-lt copy 56), (word (be32-lt copy 60), (word (be32-lt copy 64), tt)))))

-- The hash descriptor's check is exactly that the tag is `HASH`, the size is a multiple of 8, and
-- partition name, salt and digest fit the descriptor at their true sum. The fields that it hands
-- out are the numbers at their places in the packed struct, first byte most significant, and the
-- bytes of the arrays there. 132 readable bytes are enough for it, and the memory is bytes.
pub hash_exact :
    (src : Bytes)
    → IsBytes src
    → 132 ≤ length src
    → (dest : AvbHashDescriptor) × HashAt (take 132 src) dest
      × Outcome (avb_hash_descriptor_validate_and_byteswap src) dest (
          Contained 2 116
            (dest.partition_name_len ∷ dest.salt_len ∷ dest.digest_len ∷ [])
            dest.parent_descriptor)
hash_exact src ib h = (
  hash_fields (take 132 src),
  hash_fields-HashAt (take 132 src) (IsBytes-take 132 src ib),
  hash_check src h,
)

hashtree_check :
    (src : Bytes)
    → 180 ≤ length src
    → Outcome
        (avb_hashtree_descriptor_validate_and_byteswap src)
        (hashtree_fields (slice src 0 180))
        (Contained 1 164
          ((hashtree_fields (slice src 0 180)).partition_name_len
            ∷ (hashtree_fields (slice src 0 180)).salt_len
            ∷ (hashtree_fields (slice src 0 180)).root_digest_len
            ∷ [])
          (hashtree_fields (slice src 0 180)).parent_descriptor)
unfolding avb_hashtree_descriptor_validate_and_byteswap hashtree_fields
hashtree_check src h =
    let copy : Bytes = slice src 0 180 in
    rw (read-ok src 0 180 h) (
      plain (
        validate-Outcome copy 1 true 164 (be32 copy 104 ∷ be32 copy 108 ∷ be32 copy 112 ∷ [])
          (hashtree_fields copy) (omega arith)
          (word (be32-lt copy 104), (word (be32-lt copy 108), (word (be32-lt copy 112), tt)))))

-- The hashtree descriptor's check is exactly that the tag is `HASHTREE`, the size is a multiple
-- of 8, and partition name, salt and root digest fit the descriptor at their true sum. The fields
-- that it hands out are the numbers at their places in the packed struct, first byte most
-- significant, and the bytes of the arrays there. 180 readable bytes are enough for it, and the
-- memory is bytes.
pub hashtree_exact :
    (src : Bytes)
    → IsBytes src
    → 180 ≤ length src
    → (dest : AvbHashtreeDescriptor) × HashtreeAt (take 180 src) dest
      × Outcome (avb_hashtree_descriptor_validate_and_byteswap src) dest (
          Contained 1 164
            (dest.partition_name_len ∷ dest.salt_len ∷ dest.root_digest_len ∷ [])
            dest.parent_descriptor)
hashtree_exact src ib h = (
  hashtree_fields (take 180 src),
  hashtree_fields-HashtreeAt (take 180 src) (IsBytes-take 180 src ib),
  hashtree_check src h,
)

kernel_cmdline_check :
    (src : Bytes)
    → 24 ≤ length src
    → Outcome
        (avb_kernel_cmdline_descriptor_validate_and_byteswap src)
        (kernel_cmdline_fields (slice src 0 24))
        (Contained 3 8
          ((kernel_cmdline_fields (slice src 0 24)).kernel_cmdline_length ∷ [])
          (kernel_cmdline_fields (slice src 0 24)).parent_descriptor)
unfolding avb_kernel_cmdline_descriptor_validate_and_byteswap kernel_cmdline_fields
kernel_cmdline_check src h =
    let copy : Bytes = slice src 0 24 in
    rw (read-ok src 0 24 h) (
      plain (
        validate-Outcome copy 3 true 8 (be32 copy 20 ∷ []) (kernel_cmdline_fields copy)
          (omega arith) (word (be32-lt copy 20), tt)))

-- The kernel cmdline descriptor's check is exactly that the tag is `KERNEL_CMDLINE`, the size is
-- a multiple of 8, and the command line fits the descriptor at their true sum. The fields that it
-- hands out are the numbers at their places in the packed struct, first byte most significant,
-- and the bytes of the arrays there. 24 readable bytes are enough for it, and the memory is
-- bytes.
pub kernel_cmdline_exact :
    (src : Bytes)
    → IsBytes src
    → 24 ≤ length src
    → (dest : AvbKernelCmdlineDescriptor) × KernelCmdlineAt (take 24 src) dest
      × Outcome
          (avb_kernel_cmdline_descriptor_validate_and_byteswap src)
          dest
          (Contained 3 8 (dest.kernel_cmdline_length ∷ []) dest.parent_descriptor)
kernel_cmdline_exact src ib h = (
  kernel_cmdline_fields (take 24 src),
  kernel_cmdline_fields-KernelCmdlineAt (take 24 src) (IsBytes-take 24 src ib),
  kernel_cmdline_check src h,
)

at_least_one : (n : ℕ) → (not (ltb n 1) ≡ true) ↔ (1 ≤ n)
at_least_one n = ground arith

chain_partition_check :
    (src : Bytes)
    → 92 ≤ length src
    → Outcome
        (avb_chain_partition_descriptor_validate_and_byteswap src)
        (chain_partition_fields (slice src 0 92))
        ((1 ≤ (chain_partition_fields (slice src 0 92)).rollback_index_location)
          × Contained 4 76
              ((chain_partition_fields (slice src 0 92)).partition_name_len
                ∷ (chain_partition_fields (slice src 0 92)).public_key_len
                ∷ [])
              (chain_partition_fields (slice src 0 92)).parent_descriptor)
unfolding avb_chain_partition_descriptor_validate_and_byteswap chain_partition_fields
chain_partition_check src h =
    let copy : Bytes = slice src 0 92 in
    rw (read-ok src 0 92 h) (
      located
        (validate-Outcome copy 4 (not (ltb (be32 copy 16) 1)) 76 (be32 copy 20 ∷ be32 copy 24 ∷ [])
          (chain_partition_fields copy) (omega arith)
          (word (be32-lt copy 20), (word (be32-lt copy 24), tt)))
        (at_least_one (be32 copy 16)))

-- The chain partition descriptor's check is exactly that the rollback index location is not 0,
-- the tag is `CHAIN_PARTITION`, the size is a multiple of 8, and partition name and public key
-- fit the descriptor at their true sum. The fields that it hands out are the numbers at their
-- places in the packed struct, first byte most significant, and the bytes of the arrays there. 92
-- readable bytes are enough for it, and the memory is bytes.
pub chain_partition_exact :
    (src : Bytes)
    → IsBytes src
    → 92 ≤ length src
    → (dest : AvbChainPartitionDescriptor) × ChainPartitionAt (take 92 src) dest
      × Outcome (avb_chain_partition_descriptor_validate_and_byteswap src) dest (
          (1 ≤ dest.rollback_index_location)
          × Contained 4 76
              (dest.partition_name_len ∷ dest.public_key_len ∷ [])
              dest.parent_descriptor)
chain_partition_exact src ib h = (
  chain_partition_fields (take 92 src),
  chain_partition_fields-ChainPartitionAt (take 92 src) (IsBytes-take 92 src ib),
  chain_partition_check src h,
)
