-- ===== src/Hunk/State.antt =====
-- The state that a read of a hunk uses, in src/libchdr_chd.c.
use libchdr.Prelude.{ℕ, bit_and, List}
use libchdr.Prelude.{get_or, Bool, ◌==◌}
use libchdr.Prelude.{not, Option, ◌⊎◌}
use libchdr.Errors.{ChdError}
use libchdr.Bytes.{}
use libchdr.LegacyMap.{MapEntry}
use libchdr.SelfCache.{SelfCache}
use libchdr.ReadAhead.{Reader}

-- `V34_MAP_ENTRY_TYPE_MINI`
abbrev pub map_entry_type_mini : ℕ
map_entry_type_mini = 3

-- `V34_MAP_ENTRY_TYPE_SELF_HUNK`
abbrev pub map_entry_type_self_hunk : ℕ
map_entry_type_self_hunk = 4

-- `V34_MAP_ENTRY_TYPE_PARENT_HUNK`
abbrev pub map_entry_type_parent_hunk : ℕ
map_entry_type_parent_hunk = 5

-- The fields of an open file that a read uses and does not change: those of `chd_header`, and the
-- map of the versions 1 to 4. The codec `codecintf[i]` is the one with the tag `compression[i]`.
pub record Header : Type 0 where
  pub version : ℕ
  pub compression : List ℕ
  pub hunkbytes : ℕ
  pub totalhunks : ℕ
  pub unitbytes : ℕ
  pub mapentrybytes : ℕ
  pub map : List MapEntry
  pub rawmap : List ℕ

-- `struct _chd_file`; whether its `file.callbacks` is not `NULL`, and the reads through them.
pub record ChdFile : Type 0 where
  pub has_callbacks : Bool
  pub header : Header
  pub reader : Reader
  pub selfcache : SelfCache
  pub seek_and_read : ℕ → ℕ → Option (List ℕ)

-- What the code calls: the codecs by their tags, which return an error or the bytes that they write
-- to `dest`, the checksum of zlib, and `malloc` for a hunk and for the two arrays of the cache.
pub record Environment : Type 0 where
  pub decompress : ℕ → List ℕ → ℕ → ChdError ⊎ List ℕ
  pub chd_crc32 : List ℕ → ℕ
  pub malloc : ℕ → Option (List ℕ)
  pub malloc_data : ℕ → Option (List (List ℕ))
  pub malloc_hunk : ℕ → Bool

-- The bytes at `dest` after `CHDERR_NONE`, an error, or undefined behaviour, which is a division by
-- zero, an access outside of one of the two maps, or a call with a null pointer for the file. The last one is not a result of the code.
pub data HunkResult : Type 0 where
  ok : List ℕ → HunkResult
  error : ChdError → HunkResult
  undefined out_of_fuel : HunkResult

-- A result and the file with its parents afterwards.
abbrev pub Outcome : Type 0
Outcome = HunkResult × List ChdFile

abbrev pub ReadHunk : Type 0
ReadHunk = ℕ → Option (List ℕ) → List ChdFile → Outcome

-- The first tag; a header has four.
abbrev pub first_compression : Header → ℕ
first_compression h = get_or h.compression 0 0

unfoldable pub chd_compressed : Header → Bool
chd_compressed h = not (first_compression h == 0)

abbrev pub entry_type : MapEntry → ℕ
entry_type entry = bit_and entry.flags 0x0f
