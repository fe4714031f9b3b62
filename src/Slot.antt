-- ===== src/Slot.antt =====
-- The slot verification: aosp/libavb/src/avb/c/avb_slot_verify.c and headers/avb_slot_verify.h.
pub mod Exec
pub mod Rules
pub mod Ensures
pub mod Recorded
pub mod Load
pub mod Does
pub mod Plain
pub mod Digest
pub mod Hash
pub mod Entries
pub mod Checks
pub mod Image
pub mod Verity
pub mod Verify
pub mod Counts
pub mod Trust
pub mod Keys
pub mod Accepts
pub mod Walk
pub mod Chain
pub mod Recursion
pub mod Finish
pub mod Trusted
pub mod Forgets
