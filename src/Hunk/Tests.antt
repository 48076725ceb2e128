-- ===== src/Hunk/Tests.antt =====
-- Runs of the reader of hunks: a compressed file of the version 5 with three hunks of 4 bytes, one of
-- its own, one that refers to it and one that lies in two hunks of the parent, which is not compressed.
use libchdr.Prelude.{ℕ, ◌≡◌, refl, List, [], ◌∷◌, replicate}
use libchdr.Prelude.{Option, some, inl, true}
use libchdr.Errors.{codec_error}
use libchdr.Bytes.{
  get_bigendian_uint16, get_bigendian_uint24, get_bigendian_uint32, get_bigendian_uint48,
}
use libchdr.Crc.{chd_crc16}
use libchdr.SelfCache.{SelfCache}
use libchdr.ReadAhead.Memory.{memory_read, opened}
use libchdr.Hunk.State.{ChdFile, Environment, ok, chd_compressed}
use libchdr.Hunk.Stored.{crc16_checked}
use libchdr.ReadAhead.{hunk_read_uncompressed}
use libchdr.Hunk.Read.{hunk_read_into_memory, chd_read}
use libchdr.Hunk.Spec.{Source}
use libchdr.Hunk.Invariant.{source}

abbrev parent_file : List ℕ
parent_file = 0 ∷ 0 ∷ 0 ∷ 0 ∷ 1 ∷ 2 ∷ 3 ∷ 4 ∷ 5 ∷ 6 ∷ 7 ∷ 8 ∷ []

abbrev child_file : List ℕ
child_file = 9 ∷ 9 ∷ 9 ∷ 9 ∷ []

abbrev no_cache : SelfCache
no_cache = record { data_blocks = []; hunk = []; entries = 0; next = 0 }

-- Hunk 0 is at 4, hunk 1 is at 8.
abbrev parent_chd : ChdFile
parent_chd = record {
  has_callbacks = true;
  header = record {
    version = 5;
    compression = 0 ∷ 0 ∷ 0 ∷ 0 ∷ [];
    hunkbytes = 4;
    totalhunks = 2;
    unitbytes = 2;
    mapentrybytes = 4;
    map = [];
    rawmap = 0 ∷ 0 ∷ 0 ∷ 1 ∷ 0 ∷ 0 ∷ 0 ∷ 2 ∷ [];
  };
  reader = opened parent_file 4;
  selfcache = no_cache;
  seek_and_read = memory_read parent_file;
}

abbrev child_chd : ChdFile
child_chd = record {
  has_callbacks = true;
  header = record {
    version = 5;
    compression = 0x7a6c6962 ∷ 0 ∷ 0 ∷ 0 ∷ [];
    hunkbytes = 4;
    totalhunks = 3;
    unitbytes = 2;
    mapentrybytes = 12;
    map = [];
    rawmap =
        4 ∷ 0 ∷ 0 ∷ 4 ∷ 0 ∷ 0 ∷ 0 ∷ 0 ∷ 0 ∷ 0 ∷ 194 ∷ 151 ∷ 5 ∷ 0 ∷ 0 ∷ 0 ∷ 0 ∷ 0 ∷ 0 ∷ 0 ∷ 0 ∷ 0
        ∷ 0 ∷ 0 ∷ 6 ∷ 0 ∷ 0 ∷ 0 ∷ 0 ∷ 0 ∷ 0 ∷ 0 ∷ 0 ∷ 1 ∷ 0 ∷ 0 ∷ [];
  };
  reader = opened child_file 4;
  selfcache = no_cache;
  seek_and_read = memory_read child_file;
}

abbrev env : Environment
env = record {
  decompress = λ tag src n. inl codec_error;
  chd_crc32 = λ bytes. 0;
  malloc = λ n. some (replicate n 0);
  malloc_data = λ n. some (replicate n []);
  malloc_hunk = λ n. true;
}

abbrev dest : Option (List ℕ)
dest = some (replicate 4 0)

own_hunk : (chd_read env 0 dest (child_chd ∷ parent_chd ∷ [])).0 ≡ ok (9 ∷ 9 ∷ 9 ∷ 9 ∷ [])
unfolding chd_read hunk_read_into_memory chd_crc16 chd_compressed hunk_read_uncompressed
    get_bigendian_uint48 get_bigendian_uint24 crc16_checked get_bigendian_uint16
own_hunk = refl

earlier_hunk : (chd_read env 1 dest (child_chd ∷ parent_chd ∷ [])).0 ≡ ok (9 ∷ 9 ∷ 9 ∷ 9 ∷ [])
unfolding chd_read hunk_read_into_memory chd_crc16 chd_compressed hunk_read_uncompressed
    get_bigendian_uint48 get_bigendian_uint24 crc16_checked get_bigendian_uint16
earlier_hunk = refl

hunk_between : (chd_read env 2 dest (child_chd ∷ parent_chd ∷ [])).0 ≡ ok (3 ∷ 4 ∷ 5 ∷ 6 ∷ [])
unfolding chd_read hunk_read_into_memory chd_compressed get_bigendian_uint48 get_bigendian_uint32
hunk_between = refl

abbrev sources : List Source
sources = source child_file child_chd ∷ source parent_file parent_chd ∷ []
