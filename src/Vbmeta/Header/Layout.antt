-- ===== src/Vbmeta/Header/Layout.antt =====
-- The bytes of a vbmeta header, and that the byte swap reads every field where the format puts it.
use android_boot_image_edito.Common.{
  subst, append_assoc, length-append, ◌<◌, ◌^◌, ◌≡◌, sym, arith, Bytes, ◌++◌, length, drop,
  take_all, take-append, drop-append,
}
use android_boot_image_edito.Memory.{slice}
use android_boot_image_edito.Util.Endian.{be32, be64}
use android_boot_image_edito.Util.Endian.Fields.{put32, put64, field32, field64}
use android_boot_image_edito.Vbmeta.Header.{
  AvbVbMetaImageHeader, avb_magic, avb_vbmeta_image_header_to_host_byte_order,
}

-- The fields in the order of the struct, in network byte order.
abbrev pub numbers_layout : AvbVbMetaImageHeader → Bytes → Bytes
numbers_layout h rest =
    avb_magic
    ++ (put32 h.required_libavb_version_major (
        put32 h.required_libavb_version_minor (
          put64 h.authentication_data_block_size (
            put64 h.auxiliary_data_block_size (
              put32 h.algorithm_type (
                put64 h.hash_offset (
                  put64 h.hash_size (
                    put64 h.signature_offset (
                      put64 h.signature_size (
                        put64 h.public_key_offset (
                          put64 h.public_key_size (
                            put64 h.public_key_metadata_offset (
                              put64 h.public_key_metadata_size (
                                put64 h.descriptors_offset (
                                  put64 h.descriptors_size
                                    (put64 h.rollback_index (put32 h.flags rest)))))))))))))))))

abbrev pub header_layout : AvbVbMetaImageHeader → Bytes
header_layout h = numbers_layout h (h.reserved0 ++ (h.release_string ++ h.reserved))

-- A header whose fields fit the struct.
pub record FitsHeader (h : AvbVbMetaImageHeader) : Type 0 where
  pub magic : h.magic ≡ avb_magic
  pub required_libavb_version_major : h.required_libavb_version_major < 2 ^ 32
  pub required_libavb_version_minor : h.required_libavb_version_minor < 2 ^ 32
  pub authentication_data_block_size : h.authentication_data_block_size < 2 ^ 64
  pub auxiliary_data_block_size : h.auxiliary_data_block_size < 2 ^ 64
  pub algorithm_type : h.algorithm_type < 2 ^ 32
  pub hash_offset : h.hash_offset < 2 ^ 64
  pub hash_size : h.hash_size < 2 ^ 64
  pub signature_offset : h.signature_offset < 2 ^ 64
  pub signature_size : h.signature_size < 2 ^ 64
  pub public_key_offset : h.public_key_offset < 2 ^ 64
  pub public_key_size : h.public_key_size < 2 ^ 64
  pub public_key_metadata_offset : h.public_key_metadata_offset < 2 ^ 64
  pub public_key_metadata_size : h.public_key_metadata_size < 2 ^ 64
  pub descriptors_offset : h.descriptors_offset < 2 ^ 64
  pub descriptors_size : h.descriptors_size < 2 ^ 64
  pub rollback_index : h.rollback_index < 2 ^ 64
  pub flags : h.flags < 2 ^ 32
  pub reserved0 : length h.reserved0 ≡ 4
  pub release_string : length h.release_string ≡ 48
  pub reserved : length h.reserved ≡ 80

module _ (h : AvbVbMetaImageHeader) (fits : FitsHeader h) where
  required_libavb_version_major-read : be32 (header_layout h) 4 ≡ h.required_libavb_version_major
  unfolding be32
  required_libavb_version_major-read =
      field32 h.required_libavb_version_major fits.required_libavb_version_major

  required_libavb_version_minor-read : be32 (header_layout h) 8 ≡ h.required_libavb_version_minor
  unfolding be32
  required_libavb_version_minor-read =
      field32 h.required_libavb_version_minor fits.required_libavb_version_minor

  authentication_data_block_size-read : be64 (header_layout h) 12 ≡ h.authentication_data_block_size
  unfolding be64
  authentication_data_block_size-read =
      field64 h.authentication_data_block_size fits.authentication_data_block_size

  auxiliary_data_block_size-read : be64 (header_layout h) 20 ≡ h.auxiliary_data_block_size
  unfolding be64
  auxiliary_data_block_size-read =
      field64 h.auxiliary_data_block_size fits.auxiliary_data_block_size

  algorithm_type-read : be32 (header_layout h) 28 ≡ h.algorithm_type
  unfolding be32
  algorithm_type-read = field32 h.algorithm_type fits.algorithm_type

  hash_offset-read : be64 (header_layout h) 32 ≡ h.hash_offset
  unfolding be64
  hash_offset-read = field64 h.hash_offset fits.hash_offset

  hash_size-read : be64 (header_layout h) 40 ≡ h.hash_size
  unfolding be64
  hash_size-read = field64 h.hash_size fits.hash_size

  signature_offset-read : be64 (header_layout h) 48 ≡ h.signature_offset
  unfolding be64
  signature_offset-read = field64 h.signature_offset fits.signature_offset

  signature_size-read : be64 (header_layout h) 56 ≡ h.signature_size
  unfolding be64
  signature_size-read = field64 h.signature_size fits.signature_size

  public_key_offset-read : be64 (header_layout h) 64 ≡ h.public_key_offset
  unfolding be64
  public_key_offset-read = field64 h.public_key_offset fits.public_key_offset

  public_key_size-read : be64 (header_layout h) 72 ≡ h.public_key_size
  unfolding be64
  public_key_size-read = field64 h.public_key_size fits.public_key_size

  public_key_metadata_offset-read : be64 (header_layout h) 80 ≡ h.public_key_metadata_offset
  unfolding be64
  public_key_metadata_offset-read =
      field64 h.public_key_metadata_offset fits.public_key_metadata_offset

  public_key_metadata_size-read : be64 (header_layout h) 88 ≡ h.public_key_metadata_size
  unfolding be64
  public_key_metadata_size-read = field64 h.public_key_metadata_size fits.public_key_metadata_size

  descriptors_offset-read : be64 (header_layout h) 96 ≡ h.descriptors_offset
  unfolding be64
  descriptors_offset-read = field64 h.descriptors_offset fits.descriptors_offset

  descriptors_size-read : be64 (header_layout h) 104 ≡ h.descriptors_size
  unfolding be64
  descriptors_size-read = field64 h.descriptors_size fits.descriptors_size

  rollback_index-read : be64 (header_layout h) 112 ≡ h.rollback_index
  unfolding be64
  rollback_index-read = field64 h.rollback_index fits.rollback_index

  flags-read : be32 (header_layout h) 120 ≡ h.flags
  unfolding be32
  flags-read = field32 h.flags fits.flags

  reserved0-read : slice (header_layout h) 124 4 ≡ h.reserved0
  reserved0-read = take-append 4 h.reserved0 (h.release_string ++ h.reserved) fits.reserved0

  behind_reserved0 : drop 128 (header_layout h) ≡ h.release_string ++ h.reserved
  behind_reserved0 = drop-append 4 h.reserved0 (h.release_string ++ h.reserved) fits.reserved0

  release_string-read : slice (header_layout h) 128 48 ≡ h.release_string
  release_string-read =
      rw behind_reserved0 (take-append 48 h.release_string h.reserved fits.release_string)

  behind_release_string : drop 176 (header_layout h) ≡ h.reserved
  behind_release_string =
      subst (λ t. drop 52 t ≡ h.reserved) (append_assoc h.reserved0 h.release_string h.reserved)
        (drop-append 52 (h.reserved0 ++ h.release_string) h.reserved (
          omega (
            arith,
            length-append h.reserved0 h.release_string,
            fits.reserved0,
            fits.release_string,
          )))

  reserved-read : slice (header_layout h) 176 80 ≡ h.reserved
  reserved-read = rw behind_release_string (take_all 80 h.reserved (omega (arith, fits.reserved)))

  -- The byte swap gives back every field of a header that is written in the documented layout.
  pub header_roundtrip : avb_vbmeta_image_header_to_host_byte_order (header_layout h) ≡ h
  unfolding avb_vbmeta_image_header_to_host_byte_order
  header_roundtrip = λ i. record {
    magic = sym fits.magic i;
    required_libavb_version_major = required_libavb_version_major-read i;
    required_libavb_version_minor = required_libavb_version_minor-read i;
    authentication_data_block_size = authentication_data_block_size-read i;
    auxiliary_data_block_size = auxiliary_data_block_size-read i;
    algorithm_type = algorithm_type-read i;
    hash_offset = hash_offset-read i;
    hash_size = hash_size-read i;
    signature_offset = signature_offset-read i;
    signature_size = signature_size-read i;
    public_key_offset = public_key_offset-read i;
    public_key_size = public_key_size-read i;
    public_key_metadata_offset = public_key_metadata_offset-read i;
    public_key_metadata_size = public_key_metadata_size-read i;
    descriptors_offset = descriptors_offset-read i;
    descriptors_size = descriptors_size-read i;
    rollback_index = rollback_index-read i;
    flags = flags-read i;
    reserved0 = reserved0-read i;
    release_string = release_string-read i;
    reserved = reserved-read i;
  }
