-- ===== src/Descriptor.antt =====
-- Descriptors: aosp/libavb/src/avb/headers/avb_*_descriptor.h and avb_descriptor.h with the C files
-- of these names. This file has the five structs and their `validate_and_byteswap` functions.
pub mod Layout
pub mod Laws
pub mod Foreach
pub mod Property
use android_boot_image_edito.Common.{
  ℕ, ◌+◌, ◌-◌, Bool, true, false, not, ltb, ◌==◌, if◌then◌else◌, Option, none, some, bit_and, Bytes,
  List, [], ◌∷◌,
}
use android_boot_image_edito.Memory.{Run, ok, fault, ◌>>=◌, slice, read}
use android_boot_image_edito.Util.Endian.{be32, be64}
use android_boot_image_edito.Util.Checked.{avb_safe_add_to}

-- `AvbDescriptorTag`
abbrev pub tag_property : ℕ
tag_property = 0

abbrev pub tag_hashtree : ℕ
tag_hashtree = 1

abbrev pub tag_hash : ℕ
tag_hash = 2

abbrev pub tag_kernel_cmdline : ℕ
tag_kernel_cmdline = 3

abbrev pub tag_chain_partition : ℕ
tag_chain_partition = 4

pub record AvbDescriptor : Type 0 where
  pub tag : ℕ
  pub num_bytes_following : ℕ

-- The swapped struct, and the answer.
unfoldable pub avb_descriptor_validate_and_byteswap : Bytes → AvbDescriptor × Bool
avb_descriptor_validate_and_byteswap src =
    let dest : AvbDescriptor = record { tag = be64 src 0; num_bytes_following = be64 src 8 } in
    (dest, if not (bit_and dest.num_bytes_following 0x07 == 0) then false else true)

-- The chain of `avb_safe_add_to(&expected_size, …)` calls: `none` at the first that overflows.
unfoldable pub add_sizes : ℕ → List ℕ → Option ℕ
add_sizes expected_size [] = some expected_size
add_sizes expected_size (n ∷ ns) =
    let (sum, fits) = avb_safe_add_to expected_size n in
    elim fits [ false ↦ none | true ↦ add_sizes sum ns ]

-- "Descriptor payload size overflow": the parts behind the struct do not fit the descriptor.
unfoldable pub payload_fits : ℕ → List ℕ → ℕ → Bool
payload_fits expected_size sizes num_bytes_following = elim (add_sizes expected_size sizes) [
  | none ↦ false
  | some total ↦ if ltb num_bytes_following total then false else true
]

-- What all five functions check first, and then their payload. The functions return false, here
-- `none`, with a `*dest` that no caller reads.
unfoldable pub validate {ℓ} : {A : Type ℓ} → Bytes → ℕ → Bool → ℕ → List ℕ → A → Option A
validate src tag extra fixed sizes dest =
    let (parent, divisible) = avb_descriptor_validate_and_byteswap src in
    if not divisible
    then none
    else if not (parent.tag == tag)
    then none
    else if not extra
    then none
    else if payload_fits fixed sizes parent.num_bytes_following
    then some dest
    else none

pub record AvbPropertyDescriptor : Type 0 where
  pub parent_descriptor : AvbDescriptor
  pub key_num_bytes : ℕ
  pub value_num_bytes : ℕ

-- In each function the argument is the memory from the struct on.
unfoldable pub property_fields : Bytes → AvbPropertyDescriptor
property_fields src = record {
  parent_descriptor = (avb_descriptor_validate_and_byteswap src).0;
  key_num_bytes = be64 src 16;
  value_num_bytes = be64 src 24;
}

unfoldable pub avb_property_descriptor_validate_and_byteswap :
    Bytes → Run (Option AvbPropertyDescriptor)
avb_property_descriptor_validate_and_byteswap src = do
  copy ← read src 0 32
  let dest = property_fields copy
  ok (
      validate copy tag_property true (32 - 16 + 2) (dest.key_num_bytes ∷ dest.value_num_bytes ∷ [])
        dest)

pub record AvbHashDescriptor : Type 0 where
  pub parent_descriptor : AvbDescriptor
  pub image_size : ℕ
  pub hash_algorithm : Bytes
  pub partition_name_len : ℕ
  pub salt_len : ℕ
  pub digest_len : ℕ
  pub flags : ℕ

unfoldable pub hash_fields : Bytes → AvbHashDescriptor
hash_fields src = record {
  parent_descriptor = (avb_descriptor_validate_and_byteswap src).0;
  image_size = be64 src 16;
  hash_algorithm = slice src 24 32;
  partition_name_len = be32 src 56;
  salt_len = be32 src 60;
  digest_len = be32 src 64;
  flags = be32 src 68;
}

unfoldable pub avb_hash_descriptor_validate_and_byteswap : Bytes → Run (Option AvbHashDescriptor)
avb_hash_descriptor_validate_and_byteswap src = do
  copy ← read src 0 132
  let dest = hash_fields copy
  ok (
      validate copy tag_hash true (132 - 16)
        (dest.partition_name_len ∷ dest.salt_len ∷ dest.digest_len ∷ []) dest)

pub record AvbHashtreeDescriptor : Type 0 where
  pub parent_descriptor : AvbDescriptor
  pub dm_verity_version : ℕ
  pub image_size : ℕ
  pub tree_offset : ℕ
  pub tree_size : ℕ
  pub data_block_size : ℕ
  pub hash_block_size : ℕ
  pub fec_num_roots : ℕ
  pub fec_offset : ℕ
  pub fec_size : ℕ
  pub hash_algorithm : Bytes
  pub partition_name_len : ℕ
  pub salt_len : ℕ
  pub root_digest_len : ℕ
  pub flags : ℕ

unfoldable pub hashtree_fields : Bytes → AvbHashtreeDescriptor
hashtree_fields src = record {
  parent_descriptor = (avb_descriptor_validate_and_byteswap src).0;
  dm_verity_version = be32 src 16;
  image_size = be64 src 20;
  tree_offset = be64 src 28;
  tree_size = be64 src 36;
  data_block_size = be32 src 44;
  hash_block_size = be32 src 48;
  fec_num_roots = be32 src 52;
  fec_offset = be64 src 56;
  fec_size = be64 src 64;
  hash_algorithm = slice src 72 32;
  partition_name_len = be32 src 104;
  salt_len = be32 src 108;
  root_digest_len = be32 src 112;
  flags = be32 src 116;
}

unfoldable pub avb_hashtree_descriptor_validate_and_byteswap :
    Bytes → Run (Option AvbHashtreeDescriptor)
avb_hashtree_descriptor_validate_and_byteswap src = do
  copy ← read src 0 180
  let dest = hashtree_fields copy
  ok (
      validate copy tag_hashtree true (180 - 16)
        (dest.partition_name_len ∷ dest.salt_len ∷ dest.root_digest_len ∷ []) dest)

pub record AvbKernelCmdlineDescriptor : Type 0 where
  pub parent_descriptor : AvbDescriptor
  pub flags : ℕ
  pub kernel_cmdline_length : ℕ

unfoldable pub kernel_cmdline_fields : Bytes → AvbKernelCmdlineDescriptor
kernel_cmdline_fields src = record {
  parent_descriptor = (avb_descriptor_validate_and_byteswap src).0;
  flags = be32 src 16;
  kernel_cmdline_length = be32 src 20;
}

unfoldable pub avb_kernel_cmdline_descriptor_validate_and_byteswap :
    Bytes → Run (Option AvbKernelCmdlineDescriptor)
avb_kernel_cmdline_descriptor_validate_and_byteswap src = do
  copy ← read src 0 24
  let dest = kernel_cmdline_fields copy
  ok (validate copy tag_kernel_cmdline true (24 - 16) (dest.kernel_cmdline_length ∷ []) dest)

pub record AvbChainPartitionDescriptor : Type 0 where
  pub parent_descriptor : AvbDescriptor
  pub rollback_index_location : ℕ
  pub partition_name_len : ℕ
  pub public_key_len : ℕ

unfoldable pub chain_partition_fields : Bytes → AvbChainPartitionDescriptor
chain_partition_fields src = record {
  parent_descriptor = (avb_descriptor_validate_and_byteswap src).0;
  rollback_index_location = be32 src 16;
  partition_name_len = be32 src 20;
  public_key_len = be32 src 24;
}

unfoldable pub avb_chain_partition_descriptor_validate_and_byteswap :
    Bytes → Run (Option AvbChainPartitionDescriptor)
avb_chain_partition_descriptor_validate_and_byteswap src = do
  copy ← read src 0 92
  let dest = chain_partition_fields copy
  ok (
      validate copy tag_chain_partition (not (ltb dest.rollback_index_location 1)) (92 - 16)
        (dest.partition_name_len ∷ dest.public_key_len ∷ []) dest)
