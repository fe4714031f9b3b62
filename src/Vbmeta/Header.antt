-- ===== src/Vbmeta/Header.antt =====
-- `AvbVBMetaImageHeader` and `avb_vbmeta_image_header_to_host_byte_order`.
pub mod Layout
use android_boot_image_edito.Common.{ℕ, Bytes, [], ◌∷◌}
use android_boot_image_edito.Memory.{slice}
use android_boot_image_edito.Util.Endian.{be32, be64}

pub record AvbVbMetaImageHeader : Type 0 where
  pub magic : Bytes
  pub required_libavb_version_major : ℕ
  pub required_libavb_version_minor : ℕ
  pub authentication_data_block_size : ℕ
  pub auxiliary_data_block_size : ℕ
  pub algorithm_type : ℕ
  pub hash_offset : ℕ
  pub hash_size : ℕ
  pub signature_offset : ℕ
  pub signature_size : ℕ
  pub public_key_offset : ℕ
  pub public_key_size : ℕ
  pub public_key_metadata_offset : ℕ
  pub public_key_metadata_size : ℕ
  pub descriptors_offset : ℕ
  pub descriptors_size : ℕ
  pub rollback_index : ℕ
  pub flags : ℕ
  pub reserved0 : Bytes
  pub release_string : Bytes
  pub reserved : Bytes

-- "AVB0"
abbrev pub avb_magic : Bytes
avb_magic = 0x41 ∷ 0x56 ∷ 0x42 ∷ 0x30 ∷ []

abbrev pub avb_vbmeta_image_header_size : ℕ
avb_vbmeta_image_header_size = 256

-- The argument is the struct's 256 bytes.
unfoldable pub avb_vbmeta_image_header_to_host_byte_order : Bytes → AvbVbMetaImageHeader
avb_vbmeta_image_header_to_host_byte_order src = record {
  magic = slice src 0 4;
  required_libavb_version_major = be32 src 4;
  required_libavb_version_minor = be32 src 8;
  authentication_data_block_size = be64 src 12;
  auxiliary_data_block_size = be64 src 20;
  algorithm_type = be32 src 28;
  hash_offset = be64 src 32;
  hash_size = be64 src 40;
  signature_offset = be64 src 48;
  signature_size = be64 src 56;
  public_key_offset = be64 src 64;
  public_key_size = be64 src 72;
  public_key_metadata_offset = be64 src 80;
  public_key_metadata_size = be64 src 88;
  descriptors_offset = be64 src 96;
  descriptors_size = be64 src 104;
  rollback_index = be64 src 112;
  flags = be32 src 120;
  reserved0 = slice src 124 4;
  release_string = slice src 128 48;
  reserved = slice src 176 80;
}
