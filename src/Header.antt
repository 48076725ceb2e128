-- ===== src/Header.antt =====
-- The header of a file, `header_read` and `header_guess_unitbytes` of src/libchdr_chd.c. A file has one
-- of five versions of it.
pub mod Fields
pub mod Rejects
pub mod Read
pub mod Checks
pub mod Valid
mod Tests
