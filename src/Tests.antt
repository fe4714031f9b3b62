-- ===== src/Tests.antt =====
-- Runs of the code on small inputs, and the theorems at inputs where their hypotheses hold.
pub mod Bytes
pub mod Util
pub mod Text
pub mod Cmdline
pub mod Descriptors
pub mod Vbmeta
pub mod Slot
pub mod Persistent
pub mod Forgets
pub mod Hash
pub mod Property
