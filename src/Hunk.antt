-- ===== src/Hunk.antt =====
-- Reading one hunk, `hunk_read_into_memory` and `chd_read` of src/libchdr_chd.c, in the build without
-- LOWRAM_TARGET and with VERIFY_BLOCK_CRC.
pub mod State
pub mod Stored
pub mod References
pub mod Read
pub mod Spec
pub mod Mini
pub mod Invariant
pub mod FromFile
pub mod FromReferences
pub mod Earlier
pub mod InMap
pub mod Entries
pub mod Total
mod Tests
