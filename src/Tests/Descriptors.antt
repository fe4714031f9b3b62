-- ===== src/Tests/Descriptors.antt =====
-- Descriptors: one of each kind, and an image that holds two.
use android_boot_image_edito.Common.{
  subst, ◌+◌, ℕ, ◌≤◌, ◌≡◌, ◌↔◌, ◌⊎◌, refl, arith, true, some, Bytes, List, [], ◌∷◌, ◌++◌, length,
  replicate, take,
}
use android_boot_image_edito.Util.Endian.{avb_be64toh, load64, be64}
use android_boot_image_edito.Util.Endian.Fields.{put32, put64}
use android_boot_image_edito.Vbmeta.Header.{avb_magic}
use android_boot_image_edito.Descriptor.{
  AvbPropertyDescriptor, AvbHashDescriptor, AvbHashtreeDescriptor, AvbKernelCmdlineDescriptor,
  AvbChainPartitionDescriptor, avb_property_descriptor_validate_and_byteswap,
  avb_hash_descriptor_validate_and_byteswap, avb_hashtree_descriptor_validate_and_byteswap,
  avb_kernel_cmdline_descriptor_validate_and_byteswap,
  avb_chain_partition_descriptor_validate_and_byteswap,
}
use android_boot_image_edito.Tests.Bytes.{all_bytes-IsBytes}
use android_boot_image_edito.Descriptor.Layout.{
  PropertyAt, HashAt, HashtreeAt, KernelCmdlineAt, ChainPartitionAt,
}
use android_boot_image_edito.Descriptor.Laws.{
  Contained, Outcome, property_exact, hash_exact, hashtree_exact, kernel_cmdline_exact,
  chain_partition_exact,
}
use android_boot_image_edito.Descriptor.Foreach.{
  returned, outside, region_start, region_end, avb_descriptor_foreach, avb_descriptor_get_all,
  all_got, all_aborted, all_outside,
}
use android_boot_image_edito.Descriptor.Foreach.Steps.{following, Chain, done, next, fold, always}
use android_boot_image_edito.Descriptor.Foreach.Region.{HasRegion}
use android_boot_image_edito.Descriptor.Foreach.Exact.{foreach_exact, foreach_overreads}
use android_boot_image_edito.Descriptor.Foreach.GetAll.{
  terminated, get_all_exact, get_all_terminated,
}

-- A property with the key "k" and the value "v".
abbrev property : Bytes
property = put64 0 (put64 24 (put64 1 (put64 1 (107 ∷ 0 ∷ 118 ∷ 0 ∷ replicate 4 0))))

abbrev hash : Bytes
hash =
    put64 2
      (put64 120 (put64 4096 (replicate 32 0 ++ put32 4 (put32 0 (put32 0 (replicate 68 0))))))

abbrev hashtree : Bytes
hashtree = put64 1 (put64 168 (replicate 88 0 ++ put32 4 (put32 0 (put32 0 (replicate 68 0)))))

abbrev kernel_cmdline : Bytes
kernel_cmdline = put64 3 (put64 16 (put32 0 (put32 3 (114 ∷ 111 ∷ 111 ∷ replicate 5 0))))

abbrev chain_partition : Bytes
chain_partition = put64 4 (put64 80 (put32 1 (put32 2 (put32 2 (replicate 68 0)))))

property_exact_example :
    (dest : AvbPropertyDescriptor) × PropertyAt (take 32 property) dest
    × Outcome
        (avb_property_descriptor_validate_and_byteswap property)
        dest
        (Contained 0 18 (dest.key_num_bytes ∷ dest.value_num_bytes ∷ []) dest.parent_descriptor)
property_exact_example = property_exact property (all_bytes-IsBytes property refl) (omega arith)

hash_exact_example :
    (dest : AvbHashDescriptor) × HashAt (take 132 hash) dest
    × Outcome (avb_hash_descriptor_validate_and_byteswap hash) dest (
        Contained 2 116
          (dest.partition_name_len ∷ dest.salt_len ∷ dest.digest_len ∷ [])
          dest.parent_descriptor)
hash_exact_example = hash_exact hash (all_bytes-IsBytes hash refl) (omega arith)

hashtree_exact_example :
    (dest : AvbHashtreeDescriptor) × HashtreeAt (take 180 hashtree) dest
    × Outcome (avb_hashtree_descriptor_validate_and_byteswap hashtree) dest (
        Contained 1 164
          (dest.partition_name_len ∷ dest.salt_len ∷ dest.root_digest_len ∷ [])
          dest.parent_descriptor)
hashtree_exact_example = hashtree_exact hashtree (all_bytes-IsBytes hashtree refl) (omega arith)

kernel_cmdline_exact_example :
    (dest : AvbKernelCmdlineDescriptor) × KernelCmdlineAt (take 24 kernel_cmdline) dest
    × Outcome
        (avb_kernel_cmdline_descriptor_validate_and_byteswap kernel_cmdline)
        dest
        (Contained 3 8 (dest.kernel_cmdline_length ∷ []) dest.parent_descriptor)
kernel_cmdline_exact_example =
    kernel_cmdline_exact kernel_cmdline (all_bytes-IsBytes kernel_cmdline refl) (omega arith)

chain_partition_exact_example :
    (dest : AvbChainPartitionDescriptor) × ChainPartitionAt (take 92 chain_partition) dest
    × Outcome (avb_chain_partition_descriptor_validate_and_byteswap chain_partition) dest (
        (1 ≤ dest.rollback_index_location)
        × Contained 4 76
            (dest.partition_name_len ∷ dest.public_key_len ∷ [])
            dest.parent_descriptor)
chain_partition_exact_example =
    chain_partition_exact chain_partition (all_bytes-IsBytes chain_partition refl) (omega arith)

-- A header with no authentication block and these many bytes of descriptors.
abbrev pub header_for : ℕ → Bytes
header_for descriptors_size =
    avb_magic ++ (replicate 100 0 ++ put64 descriptors_size (replicate 144 0))

-- Two descriptors: the property at 256, and one with nothing behind its size at 296.
abbrev two_descriptors : Bytes
two_descriptors = header_for 56 ++ (property ++ put64 9 (put64 0 []))

abbrev base : ℕ
base = 4096

two_descriptors-HasRegion : HasRegion base two_descriptors 256 312
unfolding region_start region_end be64 load64 avb_be64toh
two_descriptors-HasRegion = record {
  header_fits = omega arith;
  magic = refl;
  base_aligned = refl;
  starts = refl;
  ends = refl;
  ordered = omega arith;
  in_image = omega arith;
  start_aligned = λ _. refl;
}

first_following : following two_descriptors 256 ≡ 24
unfolding be64 load64 avb_be64toh
first_following = refl

second_following : following two_descriptors 296 ≡ 0
unfolding be64 load64 avb_be64toh
second_following = refl

two_descriptors-Chain : Chain two_descriptors 312 256 (256 ∷ 296 ∷ [])
two_descriptors-Chain =
    next {off = 256} (omega (arith, first_following)) (omega (arith, first_following)) (
      subst (λ o. Chain two_descriptors 312 o (296 ∷ [])) (omega (arith, first_following))
        (next {off = 296} (omega (arith, second_following)) (omega (arith, second_following))
          (done (omega (arith, second_following)))))

abbrev count : ℕ → ℕ → ℕ
count o n = n + 1

foreach_exact_example :
    (avb_descriptor_foreach base two_descriptors (length two_descriptors) (always count) 0
      ≡ returned 2 true)
    ↔ ((start : ℕ) × (stop : ℕ) × (offs : List ℕ) × HasRegion base two_descriptors start stop
        × Chain two_descriptors stop start offs
        × (fold count offs 0 ≡ 2))
foreach_exact_example = foreach_exact base two_descriptors count 0 2 (omega arith)

get_all_exact_example :
    avb_descriptor_get_all base two_descriptors (length two_descriptors) (true ∷ [])
    ≡ all_got (some (terminated (256 ∷ 296 ∷ []), 2)) []
get_all_exact_example =
    get_all_exact base two_descriptors 256 312 (256 ∷ 296 ∷ []) [] (omega arith)
      two_descriptors-HasRegion two_descriptors-Chain

-- The region has 8 bytes, which are the image's last.
abbrev cut_image : Bytes
cut_image = header_for 8 ++ replicate 8 0

cut_image-HasRegion : HasRegion base cut_image 256 264
unfolding region_start region_end be64 load64 avb_be64toh
cut_image-HasRegion = record {
  header_fits = omega arith;
  magic = refl;
  base_aligned = refl;
  starts = refl;
  ends = refl;
  ordered = omega arith;
  in_image = omega arith;
  start_aligned = λ _. refl;
}

foreach_overreads_example :
    avb_descriptor_foreach base cut_image (length cut_image) (always count) 0 ≡ outside
foreach_overreads_example =
    foreach_overreads base cut_image 256 264 (always count) 0 (omega arith) cut_image-HasRegion
      (omega arith) (omega arith)

get_all_terminated_example :
    ((avb_descriptor_get_all base cut_image (length cut_image) (true ∷ []) ≡ all_aborted)
      × ((start stop : ℕ) → HasRegion base cut_image start stop → ⊥))
    ⊎ ((avb_descriptor_get_all base cut_image (length cut_image) (true ∷ []) ≡ all_outside)
        ⊎ ((offs : List ℕ) × (avb_descriptor_get_all base cut_image (length cut_image) (true ∷ [])
              ≡ all_got (some (terminated offs, length offs)) [])))
get_all_terminated_example = get_all_terminated base cut_image [] (omega arith)
