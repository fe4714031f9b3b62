-- ===== src/Descriptor/Layout.antt =====
-- The packed layout of the descriptors: which bytes of a memory each field of the struct is.
use android_boot_image_edito.Common.{◌≡◌, refl, Bytes, IsBytes}
use android_boot_image_edito.Memory.{slice}
use android_boot_image_edito.Util.Endian.BigEndian.{
  number32, number64, be32-number32, be64-number64,
}
use android_boot_image_edito.Descriptor.{
  AvbDescriptor, avb_descriptor_validate_and_byteswap, AvbPropertyDescriptor, property_fields,
  AvbHashDescriptor, hash_fields, AvbHashtreeDescriptor, hashtree_fields,
  AvbKernelCmdlineDescriptor, kernel_cmdline_fields, AvbChainPartitionDescriptor,
  chain_partition_fields,
}

-- The common header.
pub record ParentAt (memory : Bytes) (d : AvbDescriptor) : Type 0 where
  pub tag_lem : d.tag ≡ number64 memory 0
  pub num_bytes_following_lem : d.num_bytes_following ≡ number64 memory 8

parent-ParentAt :
    (memory : Bytes)
    → IsBytes memory
    → ParentAt memory (avb_descriptor_validate_and_byteswap memory).0
unfolding avb_descriptor_validate_and_byteswap
parent-ParentAt memory h = record {
  tag_lem = be64-number64 memory 0 h;
  num_bytes_following_lem = be64-number64 memory 8 h;
}

pub record PropertyAt (memory : Bytes) (d : AvbPropertyDescriptor) : Type 0 where
  pub parent : ParentAt memory d.parent_descriptor
  pub key_num_bytes_lem : d.key_num_bytes ≡ number64 memory 16
  pub value_num_bytes_lem : d.value_num_bytes ≡ number64 memory 24

pub property_fields-PropertyAt :
    (memory : Bytes) → IsBytes memory → PropertyAt memory (property_fields memory)
unfolding property_fields
property_fields-PropertyAt memory h = record {
  parent = parent-ParentAt memory h;
  key_num_bytes_lem = be64-number64 memory 16 h;
  value_num_bytes_lem = be64-number64 memory 24 h;
}

pub record HashAt (memory : Bytes) (d : AvbHashDescriptor) : Type 0 where
  pub parent : ParentAt memory d.parent_descriptor
  pub image_size_lem : d.image_size ≡ number64 memory 16
  pub hash_algorithm_lem : d.hash_algorithm ≡ slice memory 24 32
  pub partition_name_len_lem : d.partition_name_len ≡ number32 memory 56
  pub salt_len_lem : d.salt_len ≡ number32 memory 60
  pub digest_len_lem : d.digest_len ≡ number32 memory 64
  pub flags_lem : d.flags ≡ number32 memory 68

pub hash_fields-HashAt : (memory : Bytes) → IsBytes memory → HashAt memory (hash_fields memory)
unfolding hash_fields
hash_fields-HashAt memory h = record {
  parent = parent-ParentAt memory h;
  image_size_lem = be64-number64 memory 16 h;
  hash_algorithm_lem = refl;
  partition_name_len_lem = be32-number32 memory 56 h;
  salt_len_lem = be32-number32 memory 60 h;
  digest_len_lem = be32-number32 memory 64 h;
  flags_lem = be32-number32 memory 68 h;
}

pub record HashtreeAt (memory : Bytes) (d : AvbHashtreeDescriptor) : Type 0 where
  pub parent : ParentAt memory d.parent_descriptor
  pub dm_verity_version_lem : d.dm_verity_version ≡ number32 memory 16
  pub image_size_lem : d.image_size ≡ number64 memory 20
  pub tree_offset_lem : d.tree_offset ≡ number64 memory 28
  pub tree_size_lem : d.tree_size ≡ number64 memory 36
  pub data_block_size_lem : d.data_block_size ≡ number32 memory 44
  pub hash_block_size_lem : d.hash_block_size ≡ number32 memory 48
  pub fec_num_roots_lem : d.fec_num_roots ≡ number32 memory 52
  pub fec_offset_lem : d.fec_offset ≡ number64 memory 56
  pub fec_size_lem : d.fec_size ≡ number64 memory 64
  pub hash_algorithm_lem : d.hash_algorithm ≡ slice memory 72 32
  pub partition_name_len_lem : d.partition_name_len ≡ number32 memory 104
  pub salt_len_lem : d.salt_len ≡ number32 memory 108
  pub root_digest_len_lem : d.root_digest_len ≡ number32 memory 112
  pub flags_lem : d.flags ≡ number32 memory 116

pub hashtree_fields-HashtreeAt :
    (memory : Bytes) → IsBytes memory → HashtreeAt memory (hashtree_fields memory)
unfolding hashtree_fields
hashtree_fields-HashtreeAt memory h = record {
  parent = parent-ParentAt memory h;
  dm_verity_version_lem = be32-number32 memory 16 h;
  image_size_lem = be64-number64 memory 20 h;
  tree_offset_lem = be64-number64 memory 28 h;
  tree_size_lem = be64-number64 memory 36 h;
  data_block_size_lem = be32-number32 memory 44 h;
  hash_block_size_lem = be32-number32 memory 48 h;
  fec_num_roots_lem = be32-number32 memory 52 h;
  fec_offset_lem = be64-number64 memory 56 h;
  fec_size_lem = be64-number64 memory 64 h;
  hash_algorithm_lem = refl;
  partition_name_len_lem = be32-number32 memory 104 h;
  salt_len_lem = be32-number32 memory 108 h;
  root_digest_len_lem = be32-number32 memory 112 h;
  flags_lem = be32-number32 memory 116 h;
}

pub record KernelCmdlineAt (memory : Bytes) (d : AvbKernelCmdlineDescriptor) : Type 0 where
  pub parent : ParentAt memory d.parent_descriptor
  pub flags_lem : d.flags ≡ number32 memory 16
  pub kernel_cmdline_length_lem : d.kernel_cmdline_length ≡ number32 memory 20

pub kernel_cmdline_fields-KernelCmdlineAt :
    (memory : Bytes) → IsBytes memory → KernelCmdlineAt memory (kernel_cmdline_fields memory)
unfolding kernel_cmdline_fields
kernel_cmdline_fields-KernelCmdlineAt memory h = record {
  parent = parent-ParentAt memory h;
  flags_lem = be32-number32 memory 16 h;
  kernel_cmdline_length_lem = be32-number32 memory 20 h;
}

pub record ChainPartitionAt (memory : Bytes) (d : AvbChainPartitionDescriptor) : Type 0 where
  pub parent : ParentAt memory d.parent_descriptor
  pub rollback_index_location_lem : d.rollback_index_location ≡ number32 memory 16
  pub partition_name_len_lem : d.partition_name_len ≡ number32 memory 20
  pub public_key_len_lem : d.public_key_len ≡ number32 memory 24

pub chain_partition_fields-ChainPartitionAt :
    (memory : Bytes) → IsBytes memory → ChainPartitionAt memory (chain_partition_fields memory)
unfolding chain_partition_fields
chain_partition_fields-ChainPartitionAt memory h = record {
  parent = parent-ParentAt memory h;
  rollback_index_location_lem = be32-number32 memory 16 h;
  partition_name_len_lem = be32-number32 memory 20 h;
  public_key_len_lem = be32-number32 memory 24 h;
}
