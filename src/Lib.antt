-- ===== src/Lib.antt =====
-- A model of libchdr, the reader of CHD (compressed hunks of data) disk images, with proofs.
--
-- The program reads a file header, then a map that says for each hunk where its data is and how it
-- is compressed, then hunks on demand. The map of version 5 is itself compressed: a Huffman code for
-- the entry types and bit fields for lengths and offsets, which the bit reader delivers.
--
-- Files and the code that they model:
--   Prelude          lists with native indices, C integer types, powers of two, Boolean tests
--   Bytes            the big-endian readers and writers of src/libchdr_chd.c
--   Crc              `crc16_update` and `chd_crc16` of src/libchdr_chd.c; Polynomial has what their
--                    tables hold
--   Bitstream        src/libchdr_bitstream.c and `struct bitstream`; Spec says what the bits of an
--                    array are, Synced and Refine prove the reader against it, Position has the
--                    operations on positions, Wide the reads of more than 25 bits
--   Header           `header_read` and `header_guess_unitbytes` of src/libchdr_chd.c: Fields has the
--                    fields of each version, Rejects the tests, Read the whole; Checks and Valid
--                    prove what a header is that is accepted
--   Huffman          src/libchdr_huffman.c: construction, canonical codes, the lookup table and
--                    the decoding of a symbol; Import has the two readers of code lengths.
--                    Canonical, Starts and Assign prove that the codes are canonical, PrefixFree
--                    that such codes are prefix-free, Table and Decode that the table finds them
--   MapV5            the two passes of `decompress_v5_map` of src/libchdr_chd.c; Types has the
--                    run-length code of the types, Offsets the places of the hunks, Entries the
--                    bytes of an entry, Size has `map_size_v5`
--   LegacyMap        `map_extract` and `map_extract_old` of src/libchdr_chd.c; Fields has what they
--                    take from the bytes, Read has `map_read`, Safe what it has tested
--   Metadata         `metadata_find_entry` and `chd_get_metadata` of src/libchdr_chd.c; Find has the
--                    search along the links, Output the bytes that the caller gets
--   SelfCache        the cache of decoded hunks, `selfcache_*` of src/libchdr_chd.c; Coherent has its
--                    invariant, Reach its runs
--   ReadAhead        `hunk_read_compressed`, `hunk_read_uncompressed`, `chd_set_cache_budget` and
--                    `chd_precache` of src/libchdr_chd.c; Window says what the read-ahead window
--                    holds, Refill, Sound, Compressed, Serve and Budget prove the functions against
--                    it, Memory has callbacks over a list of bytes
--   Hunk             `hunk_read_into_memory` and `chd_read` of src/libchdr_chd.c: State has the
--                    fields they use, Stored the hunks in the file, References those elsewhere, Read
--                    the whole. Spec says what the bytes of a hunk are, Invariant what holds between
--                    two reads; Mini, FromFile, FromReferences, Earlier, InMap, Entries and Total
--                    prove the read against them
--   Ecc              the error correction codes of src/libchdr_cdrom.c; Layout has what the tables
--                    hold
--   Errors           `enum _chd_error` of include/libchdr/chd.h
--
-- C integers are native natural numbers with their wrap-around written out (`u8`, `u16`, `u32`,
-- `u64`); a C `int` that can be negative is an integer. A pointer into an array is the array with an
-- index. A function that changes an object returns the changed object beside its result. Memory
-- from `malloc` is an argument that holds unknown values.
--
-- Loops. The loop of `bitstream_peek` has fuel for the rounds until more than 24 bits are held, the
-- loops of the tree readers fuel for one round per node; each round of the latter sets a node at
-- least. The loop of `bit_length` shifts a 32-bit word 32 times. The search for
-- metadata has the bound of the source, 65536 entries. The passes over the map run over its hunks. The
-- loop of `map_read` has fuel for one round per hunk and one more, and a round reads up to 512 entries.
--
-- A read of a hunk calls itself for an earlier hunk of the same file and for a hunk of the parent: the
-- inner fuel counts the hunk numbers, the outer one the files, and both are proved enough.
--
-- The callbacks of the file's owner, `malloc`, `sprintf`, `sscanf`, the CRC of zlib and, for the reading of
-- hunks, the codecs are arguments.
--
-- Not modelled: the low-memory build (LOWRAM_TARGET), the encoder side of the Huffman code, opening a
-- file, the codecs, and the third-party decompressors under deps/ and include/dr_libs/.
pub mod Prelude
pub mod Bytes
pub mod Crc
pub mod Bitstream
pub mod Header
pub mod Huffman
pub mod Hunk
pub mod Ecc
pub mod Errors
pub mod LegacyMap
pub mod Metadata
pub mod SelfCache
pub mod ReadAhead
pub mod MapV5
