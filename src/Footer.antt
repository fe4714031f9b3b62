-- ===== src/Footer.antt =====
-- The footer at the end of a partition: aosp/libavb/src/avb/headers/avb_footer.h and
-- c/avb_footer.c.
pub mod Laws
use android_boot_image_edito.Common.{
  ℕ, Bool, true, false, not, ltb, ◌==◌, if◌then◌else◌, Bytes, [], ◌∷◌,
}
use android_boot_image_edito.Memory.{Run, ok, fault, ◌>>=◌, slice, read}
use android_boot_image_edito.Util.Endian.{be32, be64}
use android_boot_image_edito.Util.Compare.{avb_safe_memcmp}

pub record AvbFooter : Type 0 where
  pub magic : Bytes
  pub version_major : ℕ
  pub version_minor : ℕ
  pub original_image_size : ℕ
  pub vbmeta_offset : ℕ
  pub vbmeta_size : ℕ
  pub reserved : Bytes

-- "AVBf"
abbrev pub avb_footer_magic : Bytes
avb_footer_magic = 0x41 ∷ 0x56 ∷ 0x42 ∷ 0x66 ∷ []

abbrev pub avb_footer_size : ℕ
avb_footer_size = 64

-- The copy of the struct with its numbers in host order.
unfoldable pub footer_fields : Bytes → AvbFooter
footer_fields src = record {
  magic = slice src 0 4;
  version_major = be32 src 4;
  version_minor = be32 src 8;
  original_image_size = be64 src 12;
  vbmeta_offset = be64 src 20;
  vbmeta_size = be64 src 28;
  reserved = slice src 36 28;
}

-- The pair is `*dest` and the answer.
unfoldable pub avb_footer_validate_and_byteswap : Bytes → Run (AvbFooter × Bool)
unfolding read footer_fields
avb_footer_validate_and_byteswap src = do
  copy ← read src 0 avb_footer_size
  let dest = footer_fields copy
  differs ← avb_safe_memcmp dest.magic avb_footer_magic 4
  ok (dest, if not (differs == 0) then false else if ltb 1 dest.version_major then false else true)
