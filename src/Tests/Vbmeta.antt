-- ===== src/Tests/Vbmeta.antt =====
-- A vbmeta image, its verification, and the footer.
use android_boot_image_edito.Footer.Laws.{
  IsFooter, byteswap_accepts, footer_layout, FitsFooter, footer_roundtrip,
}
use android_boot_image_edito.Footer.{
  AvbFooter, avb_footer_magic, footer_fields, avb_footer_validate_and_byteswap,
}
use android_boot_image_edito.Vbmeta.Verify.Key.{public_key_inside}
use android_boot_image_edito.Vbmeta.Verify.Authentic.{IsAuthentic, header_of, verify_exact}
use android_boot_image_edito.Vbmeta.Verify.Signed.{Decides}
use android_boot_image_edito.Vbmeta.Verify.{
  result_ok, Verdict, avb_vbmeta_image_verify, header_failure, block_sizes_valid, ranges_valid,
  leaves_block, with_header, verify_blocks, with_algorithm, computed_hash, with_digest, verify_hash,
  verify_signature,
}
use android_boot_image_edito.Vbmeta.Header.Layout.{header_layout, FitsHeader, header_roundtrip}
use android_boot_image_edito.Vbmeta.Header.{
  AvbVbMetaImageHeader, avb_magic, avb_vbmeta_image_header_to_host_byte_order,
}
use android_boot_image_edito.Crypto.Padding.{FitsKey, key_bytes, digest_bytes, algorithm_fills_key}
use android_boot_image_edito.Crypto.{
  AvbAlgorithmData, padding_rsa2048_sha256, avb_get_algorithm_data, Primitives,
}
use android_boot_image_edito.Util.Compare.{avb_safe_memcmp}
use android_boot_image_edito.Util.Checked.{avb_safe_add, avb_safe_add_to}
use android_boot_image_edito.Util.Endian.{be32, be64, load32, load64, avb_be32toh, avb_be64toh}
use android_boot_image_edito.Memory.{ok, slice, read}
use android_boot_image_edito.Common.{
  ◌+◌, ◌≤◌, ◌<◌, ◌≡◌, ◌↔◌, Bool, true, some, Bytes, IsBytes, ◌++◌, replicate, arith, refl,
}
use android_boot_image_edito.Tests.Bytes.{all_bytes-IsBytes}

-- Digests that do not look at their input, and a check that accepts every signature.
abbrev pub sample_crypto : Primitives
sample_crypto = record {
  sha256 = λ us. replicate 32 7;
  sha512 = λ us. replicate 64 7;
  avb_rsa_verify = λ key sig hash padding. true;
  length-sha256 = λ us. refl;
  length-sha512 = λ us. refl;
  sha256-IsBytes = λ us. all_bytes-IsBytes (replicate 32 7) refl;
  sha512-IsBytes = λ us. all_bytes-IsBytes (replicate 64 7) refl;
}

abbrev pub sample_header : AvbVbMetaImageHeader
sample_header = record {
  magic = avb_magic;
  required_libavb_version_major = 1;
  required_libavb_version_minor = 0;
  authentication_data_block_size = 64;
  auxiliary_data_block_size = 64;
  algorithm_type = 1;
  hash_offset = 0;
  hash_size = 32;
  signature_offset = 32;
  signature_size = 32;
  public_key_offset = 0;
  public_key_size = 16;
  public_key_metadata_offset = 16;
  public_key_metadata_size = 0;
  descriptors_offset = 16;
  descriptors_size = 0;
  rollback_index = 3;
  flags = 0;
  reserved0 = replicate 4 0;
  release_string = replicate 48 0;
  reserved = replicate 80 0;
}

abbrev pub sample_image : Bytes
sample_image = header_layout sample_header ++ (replicate 32 7 ++ (replicate 32 9 ++ replicate 64 1))

pub sample_image-IsBytes : IsBytes sample_image
sample_image-IsBytes = all_bytes-IsBytes sample_image refl

sample_header-FitsHeader : FitsHeader sample_header
sample_header-FitsHeader = record {
  magic = refl;
  required_libavb_version_major = omega arith;
  required_libavb_version_minor = omega arith;
  authentication_data_block_size = omega arith;
  auxiliary_data_block_size = omega arith;
  algorithm_type = omega arith;
  hash_offset = omega arith;
  hash_size = omega arith;
  signature_offset = omega arith;
  signature_size = omega arith;
  public_key_offset = omega arith;
  public_key_size = omega arith;
  public_key_metadata_offset = omega arith;
  public_key_metadata_size = omega arith;
  descriptors_offset = omega arith;
  descriptors_size = omega arith;
  rollback_index = omega arith;
  flags = omega arith;
  reserved0 = refl;
  release_string = refl;
  reserved = refl;
}

header_roundtrip_example :
    avb_vbmeta_image_header_to_host_byte_order (header_layout sample_header) ≡ sample_header
header_roundtrip_example = header_roundtrip sample_header sample_header-FitsHeader

verify_exact_example :
    Decides
      (avb_vbmeta_image_verify sample_crypto 4096 sample_image 384)
      (IsAuthentic sample_crypto 4096 sample_image 384)
verify_exact_example =
    verify_exact sample_crypto 4096 sample_image 384 sample_image-IsBytes (omega arith)
      (omega arith) (omega arith)

abbrev sample_verdict : Verdict
sample_verdict = record { result = result_ok; public_key = some (320, 16) }

sample_verified : avb_vbmeta_image_verify sample_crypto 4096 sample_image 384 ≡ ok sample_verdict
unfolding avb_vbmeta_image_verify avb_safe_memcmp read avb_vbmeta_image_header_to_host_byte_order
    be32 be64 load32 load64 avb_be32toh avb_be64toh header_failure block_sizes_valid ranges_valid
    leaves_block avb_safe_add avb_safe_add_to with_header verify_blocks with_algorithm
    avb_get_algorithm_data computed_hash with_digest verify_hash verify_signature
sample_verified = refl

public_key_inside_example :
    (sample_verdict.result ≡ result_ok)
    × (0 < 16)
    × (256 + (header_of sample_image).authentication_data_block_size ≤ 320)
    × (320 + 16
        ≤ 256
          + (header_of sample_image).authentication_data_block_size
          + (header_of sample_image).auxiliary_data_block_size)
    × (320 + 16 ≤ 384)
public_key_inside_example =
    public_key_inside sample_crypto 4096 sample_image 384 sample_verdict 320 16 sample_image-IsBytes
      (omega arith) (omega arith) (omega arith) sample_verified refl

abbrev rsa2048 : AvbAlgorithmData
rsa2048 = record { padding = padding_rsa2048_sha256; padding_len = 224; hash_len = 32 }

rsa2048_entry : avb_get_algorithm_data 1 ≡ some rsa2048
unfolding avb_get_algorithm_data
rsa2048_entry = refl

algorithm_fills_key_example : FitsKey (key_bytes 1) (digest_bytes 1) rsa2048
algorithm_fills_key_example = algorithm_fills_key 1 rsa2048 (omega arith) rsa2048_entry

abbrev sample_footer : AvbFooter
sample_footer = record {
  magic = avb_footer_magic;
  version_major = 1;
  version_minor = 0;
  original_image_size = 1048576;
  vbmeta_offset = 1048576;
  vbmeta_size = 384;
  reserved = replicate 28 0;
}

sample_footer-FitsFooter : FitsFooter sample_footer
sample_footer-FitsFooter = record {
  magic = refl;
  version_major = omega arith;
  version_minor = omega arith;
  original_image_size = omega arith;
  vbmeta_offset = omega arith;
  vbmeta_size = omega arith;
  reserved = refl;
  reserved_bytes = all_bytes-IsBytes (replicate 28 0) refl;
}

footer_roundtrip_example :
    avb_footer_validate_and_byteswap (footer_layout sample_footer) ≡ ok (sample_footer, true)
footer_roundtrip_example = footer_roundtrip sample_footer sample_footer-FitsFooter

byteswap_accepts_example :
    (answer : Bool) × (avb_footer_validate_and_byteswap sample_image
      ≡ ok (footer_fields (slice sample_image 0 64), answer))
    × ((answer ≡ true) ↔ IsFooter (footer_fields (slice sample_image 0 64)))
byteswap_accepts_example = byteswap_accepts sample_image sample_image-IsBytes (omega arith)
