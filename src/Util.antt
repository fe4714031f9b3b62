-- ===== src/Util.antt =====
-- aosp/libavb/src/avb/c/avb_util.c, a child for each group of its functions.
pub mod Endian
pub mod Checked
pub mod Compare
pub mod Utf8
pub mod Strings
pub mod Text
