-- ===== src/Vbmeta.antt =====
-- The vbmeta image: aosp/libavb/src/avb/headers/avb_vbmeta_image.h and c/avb_vbmeta_image.c.
pub mod Header
pub mod Verify
