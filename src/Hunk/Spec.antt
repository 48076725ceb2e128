-- ===== src/Hunk/Spec.antt =====
-- What a hunk of an image is, with no cache, no read-ahead window and no order of reads.
use libchdr.Prelude.{ℕ, ◌+◌, ◌-◌, ◌*◌, ◌/◌, ◌%◌, ◌^◌, ◌≤◌, ◌<◌, ◌≡◌, ◌≢◌, bit_and, u8}
use libchdr.Prelude.{List, [], ◌∷◌, ◌++◌, length, get_elem?, get_or, replicate, some}
use libchdr.Prelude.{◌⊎◌, inr}
use libchdr.Prelude.Slices.{slice}
use libchdr.Crc.{chd_crc16}
use libchdr.LegacyMap.{
  MapEntry, map_entry_flag_no_crc, map_entry_type_compressed, map_entry_type_uncompressed,
}
use libchdr.MapV5.{compression_type_3, compression_none, compression_self, compression_parent}
use libchdr.ReadAhead.Window.{IsRange}
use libchdr.Hunk.State.{
  Header, Environment, HunkResult, ok, error, map_entry_type_mini, map_entry_type_self_hunk,
  map_entry_type_parent_hunk, first_compression, entry_type,
}
use libchdr.Hunk.Stored.{block_type, block_len, block_offs, block_crc, raw_offs}

-- A file and what its header and its map say.
pub record Source : Type 0 where
  pub file : List ℕ
  pub header : Header

-- The 8 bytes of the offset of a map entry, over and over.
abbrev pub IsPattern : ℕ → ℕ → List ℕ → Type 0
IsPattern offset hunkbytes bytes =
    (length bytes ≡ hunkbytes)
    × ((j : ℕ) → j < hunkbytes → get_or bytes j 0 ≡ u8 (offset / 2 ^ (8 * (7 - j % 8))))

-- The units of a hunk.
abbrev pub units : Header → ℕ
units h = h.hunkbytes / h.unitbytes

-- An entry of a map of the versions 1 to 4 with its type.
abbrev pub IsLegacyEntry : Source → ℕ → MapEntry → ℕ → Type 0
IsLegacyEntry s n entry type =
    (s.header.version < 5)
    × (n < s.header.totalhunks)
    × (get_elem? s.header.map n ≡ some entry)
    × (entry_type entry ≡ type)

-- A hunk of a compressed file of the version 5.
abbrev pub IsBlock : Source → ℕ → Type 0
IsBlock s n = (5 ≤ s.header.version) × (n < s.header.totalhunks) × (first_compression s.header ≢ 0)

-- A hunk of a file of the version 5 without compression.
abbrev pub IsRaw : Source → ℕ → Type 0
IsRaw s n = (5 ≤ s.header.version) × (n < s.header.totalhunks) × (first_compression s.header ≡ 0)

module _ (env : Environment) where
  -- The checksum of an entry of the versions 1 to 4, if it has one.
  abbrev pub HasCrc32 : MapEntry → List ℕ → Type 0
  HasCrc32 entry bytes =
      (bit_and entry.flags map_entry_flag_no_crc ≢ 0) ⊎ (env.chd_crc32 bytes ≡ entry.crc)

  -- The bytes of a hunk of the first of a list of files, in which each one is followed by its parent.
  pub data IsHunk : List Source → ℕ → List ℕ → Type 0 where
    legacy_compressed :
        {s : Source} {ss : List Source} {n : ℕ} {entry : MapEntry} {src bytes : List ℕ}
        → IsLegacyEntry s n entry map_entry_type_compressed
        → IsRange s.file entry.offset entry.length src
        → first_compression s.header ≢ 0
        → env.decompress (first_compression s.header) src s.header.hunkbytes ≡ inr bytes
        → HasCrc32 entry bytes
        → IsHunk (s ∷ ss) n bytes
    -- Without a codec the map says no more of a compressed hunk than its checksum.
    legacy_no_codec :
        {s : Source} {ss : List Source} {n : ℕ} {entry : MapEntry} {bytes : List ℕ}
        → IsLegacyEntry s n entry map_entry_type_compressed
        → first_compression s.header ≡ 0
        → length bytes ≡ s.header.hunkbytes
        → HasCrc32 entry bytes
        → IsHunk (s ∷ ss) n bytes
    -- An entry of no known type says nothing of the hunk.
    legacy_unknown :
        {s : Source} {ss : List Source} {n : ℕ} {entry : MapEntry} {type : ℕ} {bytes : List ℕ}
        → IsLegacyEntry s n entry type
        → (type < map_entry_type_compressed) ⊎ (map_entry_type_parent_hunk < type)
        → length bytes ≡ s.header.hunkbytes
        → IsHunk (s ∷ ss) n bytes
    legacy_uncompressed :
        {s : Source} {ss : List Source} {n : ℕ} {entry : MapEntry} {bytes : List ℕ}
        → IsLegacyEntry s n entry map_entry_type_uncompressed
        → IsRange s.file entry.offset s.header.hunkbytes bytes
        → HasCrc32 entry bytes
        → IsHunk (s ∷ ss) n bytes
    legacy_mini :
        {s : Source} {ss : List Source} {n : ℕ} {entry : MapEntry} {bytes : List ℕ}
        → IsLegacyEntry s n entry map_entry_type_mini
        → IsPattern entry.offset s.header.hunkbytes bytes
        → HasCrc32 entry bytes
        → IsHunk (s ∷ ss) n bytes
    legacy_self :
        {s : Source} {ss : List Source} {n : ℕ} {entry : MapEntry} {bytes : List ℕ}
        → IsLegacyEntry s n entry map_entry_type_self_hunk
        → entry.offset < n
        → IsHunk (s ∷ ss) entry.offset bytes
        → IsHunk (s ∷ ss) n bytes
    legacy_parent :
        {s p : Source} {ss : List Source} {n : ℕ} {entry : MapEntry} {bytes : List ℕ}
        → IsLegacyEntry s n entry map_entry_type_parent_hunk
        → IsHunk (p ∷ ss) entry.offset bytes
        → IsHunk (s ∷ p ∷ ss) n bytes
    raw_stored :
        {s : Source} {ss : List Source} {n : ℕ} {bytes : List ℕ}
        → IsRaw s n
        → raw_offs s.header n ≢ 0
        → IsRange s.file (raw_offs s.header n) s.header.hunkbytes bytes
        → IsHunk (s ∷ ss) n bytes
    raw_parent :
        {s p : Source} {ss : List Source} {n : ℕ} {bytes : List ℕ}
        → IsRaw s n
        → raw_offs s.header n ≡ 0
        → IsHunk (p ∷ ss) n bytes
        → IsHunk (s ∷ p ∷ ss) n bytes
    raw_zero :
        {s : Source} {n : ℕ}
        → IsRaw s n
        → raw_offs s.header n ≡ 0
        → IsHunk (s ∷ []) n (replicate s.header.hunkbytes 0)
    block_compressed :
        {s : Source} {ss : List Source} {n : ℕ} {src bytes : List ℕ}
        → IsBlock s n
        → block_type s.header n ≤ compression_type_3
        → IsRange s.file (block_offs s.header n) (block_len s.header n) src
        → env.decompress
            (get_or s.header.compression (block_type s.header n) 0)
            src
            s.header.hunkbytes
          ≡ inr bytes
        → chd_crc16 bytes ≡ block_crc s.header n
        → IsHunk (s ∷ ss) n bytes
    block_uncompressed :
        {s : Source} {ss : List Source} {n : ℕ} {bytes : List ℕ}
        → IsBlock s n
        → block_type s.header n ≡ compression_none
        → IsRange s.file (block_offs s.header n) s.header.hunkbytes bytes
        → chd_crc16 bytes ≡ block_crc s.header n
        → IsHunk (s ∷ ss) n bytes
    block_self :
        {s : Source} {ss : List Source} {n : ℕ} {bytes : List ℕ}
        → IsBlock s n
        → block_type s.header n ≡ compression_self
        → block_offs s.header n < n
        → IsHunk (s ∷ ss) (block_offs s.header n) bytes
        → IsHunk (s ∷ ss) n bytes
    block_parent :
        {s p : Source} {ss : List Source} {n : ℕ} {bytes : List ℕ}
        → IsBlock s n
        → block_type s.header n ≡ compression_parent
        → block_offs s.header n % units s.header ≡ 0
        → IsHunk (p ∷ ss) (block_offs s.header n / units s.header) bytes
        → IsHunk (s ∷ p ∷ ss) n bytes
    block_between :
        {s p : Source} {ss : List Source} {n : ℕ} {first second : List ℕ}
        → IsBlock s n
        → block_type s.header n ≡ compression_parent
        → IsHunk (p ∷ ss) (block_offs s.header n / units s.header) first
        → IsHunk (p ∷ ss) (block_offs s.header n / units s.header + 1) second
        → IsHunk (s ∷ p ∷ ss) n (
            slice
              (first ++ second)
              (block_offs s.header n % units s.header * s.header.unitbytes)
              s.header.hunkbytes)

  -- A result is the hunk or an error.
  pub data IsAnswer (ss : List Source) (n : ℕ) : HunkResult → Type 0 where
    delivered : {bytes : List ℕ} → IsHunk ss n bytes → IsAnswer ss n (ok bytes)
    refused : {err : _} → IsAnswer ss n (error err)
