-- ===== src/Slot/Trust.antt =====
-- The chain of trust from a key that the boot loader accepts to a recorded vbmeta image.
use android_boot_image_edito.Common.{
  ℕ, ◌+◌, ◌≤◌, ◌≡◌, ◌⊎◌, Bool, true, Option, none, some, Bytes, length, take, drop,
}
use android_boot_image_edito.Memory.{ok, slice}
use android_boot_image_edito.Descriptor.Foreach.Safe.{InRegion}
use android_boot_image_edito.Crypto.{Primitives}
use android_boot_image_edito.Vbmeta.Verify.{result_ok}
use android_boot_image_edito.Vbmeta.Verify.Signed.{embedded_key}
use android_boot_image_edito.Vbmeta.Verify.Authentic.{header_of, IsAuthentic}
use android_boot_image_edito.Descriptor.{
  AvbChainPartitionDescriptor, avb_chain_partition_descriptor_validate_and_byteswap,
}
use android_boot_image_edito.Ops.{AvbIoResult, io_ok, AvbOps}
use android_boot_image_edito.Slot.Exec.{AvbVbMetaData}

module _ (crypto : Primitives) (address : Bytes → ℕ) {Store : Type 0} (ops : AvbOps Store) where
  -- The metadata of the public key in an image, or none when its size is 0.
  abbrev pub HasMetadata : Bytes → Option Bytes → Type 0
  HasMetadata image none = (header_of image).public_key_metadata_size ≡ 0
  HasMetadata image (some metadata) =
      let h = header_of image in
      (1 ≤ h.public_key_metadata_size)
      × (metadata
          ≡ slice image (256 + h.authentication_data_block_size + h.public_key_metadata_offset)
              h.public_key_metadata_size)

  -- The boot loader trusts a key for a rollback index location, when it is asked about the key and
  -- the metadata of an image, and about its partition where the operation takes one.
  abbrev pub KeyTrusted : Bytes → Bytes → Bytes → ℕ → Type 0
  KeyTrusted name image key location =
      ((metadata : Option Bytes) × HasMetadata image metadata
        × (location ≡ 0)
        × (ops.validate_vbmeta_public_key key metadata ≡ (io_ok, true)))
      ⊎ ((metadata : Option Bytes) × HasMetadata image metadata
          × (validate : Bytes → Bytes → Option Bytes → AvbIoResult × Bool × ℕ)
          × (ops.validate_public_key_for_partition ≡ some validate)
          × (validate name key metadata ≡ (io_ok, true, location)))

  -- The image was read from a partition, it verifies with its own key, and its rollback index is
  -- not below the one that is stored at the location.
  pub record Vouched (name : Bytes) (image : AvbVbMetaData) (key : Bytes) (location : ℕ)
      : Type 0 where
    pub place : ℕ
    pub size : ℕ
    pub loaded : ops.read_from_partition name place size ≡ (io_ok, image.vbmeta_data)
    pub authentic : IsAuthentic crypto (address name) image.vbmeta_data (length image.vbmeta_data)
    pub verified : image.verify_result ≡ result_ok
    pub embedded : key ≡ embedded_key image.vbmeta_data (header_of image.vbmeta_data)
    pub stored : ℕ
    pub read : ops.read_rollback_index location ≡ (io_ok, stored)
    pub fresh : stored ≤ (header_of image.vbmeta_data).rollback_index

  -- The descriptor at the offset `o` in the region of the descriptors of an image, which is in
  -- memory at `base`, names the key and the location.
  pub record Names (base : ℕ) (image : Bytes) (o : ℕ) (key : Bytes) (location : ℕ) : Type 0 where
    pub placed : InRegion base image o
    pub desc : AvbChainPartitionDescriptor
    pub valid : avb_chain_partition_descriptor_validate_and_byteswap (drop o image) ≡ ok (some desc)
    pub key_lem :
        key ≡ take desc.public_key_len (drop (92 + desc.partition_name_len) (drop o image))
    pub location_lem : location ≡ desc.rollback_index_location

  -- An image is trusted when it is vouched for under a key that the boot loader trusts, or under
  -- the key in a chain partition descriptor of a trusted image that was read from a partition, too.
  pub data Trusted : Bytes → AvbVbMetaData → Type 0 where
    anchored :
        {name : Bytes} {image : AvbVbMetaData} {key : Bytes} {location : ℕ}
        → Vouched name image key location
        → KeyTrusted name image.vbmeta_data key location
        → Trusted name image
    chained :
        {name parent_name : Bytes} {image parent : AvbVbMetaData} {key : Bytes} {location o : ℕ}
        → Vouched name image key location
        → Trusted parent_name parent
        → Names (address parent_name) parent.vbmeta_data o key location
        → Trusted name image

  abbrev pub IsTrusted : AvbVbMetaData → Type 0
  IsTrusted image = (name : Bytes) × Trusted name image
