-- ===== src/Header/Rejects.antt =====
-- The tests of `header_read` of src/libchdr_chd.c after the fields are read.
use libchdr.Prelude.{ℕ, ◌+◌, ◌*◌, bit_and, u64, List, [], ◌∷◌, get_or}
use libchdr.Prelude.{Bool, true, ltb, leb, ◌==◌, not, ◌&&◌, ◌||◌, if◌then◌else◌}
use libchdr.Prelude.{◌⊎◌, inl, inr}
use libchdr.Errors.{ChdError, invalid_data}
use libchdr.Header.Fields.{ChdHeader}

abbrev pub is_null : List ℕ → Bool
is_null [] = true
is_null (x ∷ xs) = (x == 0) && is_null xs

-- The tags of `codec_interfaces`.
abbrev pub is_supported : ℕ → Bool
is_supported tag =
    leb tag 3
    || (tag == 0x7a6c6962)
    || (tag == 0x6c7a6d61)
    || (tag == 0x68756666)
    || (tag == 0x666c6163)
    || (tag == 0x7a737464)
    || (tag == 0x63647a6c)
    || (tag == 0x63646c7a)
    || (tag == 0x6364666c)
    || (tag == 0x63647a73)
    || (tag == 0x61766875)

-- The test that ends with `CHDERR_INVALID_DATA`.
abbrev pub reject_if : Bool → ChdHeader → ChdError ⊎ ChdHeader
reject_if bad h = if bad then inl invalid_data else inr h

-- The tests of the versions 1 to 4: flags and codec, sizes, the parent, the fields of the old versions.
abbrev pub unknown_format : ChdHeader → Bool
unknown_format h =
    not (bit_and h.flags 0xfffffffc == 0) || not (is_supported (get_or h.compression 0 0))

abbrev pub bad_hunks : ChdHeader → Bool
bad_hunks h = (h.hunkbytes == 0) || leb (65536 * 256) h.hunkbytes || (h.totalhunks == 0)

abbrev pub bad_parent : ChdHeader → Bool
bad_parent h = not (bit_and h.flags 1 == 0) && is_null h.parentmd5 && is_null h.parentsha1

abbrev pub bad_geometry : ChdHeader → Bool
bad_geometry h =
    (leb 3 h.version
      && not (
          (h.obsolete_cylinders == 0)
          && (h.obsolete_sectors == 0)
          && (h.obsolete_heads == 0)
          && (h.obsolete_hunksize == 0)))
    || (ltb h.version 3
        && ((h.obsolete_cylinders == 0)
            || (h.obsolete_sectors == 0)
            || (h.obsolete_heads == 0)
            || (h.obsolete_hunksize == 0)))

unfoldable pub legacy_rejected : ChdHeader → Bool
legacy_rejected h = (unknown_format h || bad_hunks h) || (bad_parent h || bad_geometry h)

-- Whether the hunks are too large or too many: `CHD_MAX_HUNK_SIZE` and `CHD_MAX_FILE_SIZE`.
unfoldable pub size_rejected : ChdHeader → Bool
size_rejected h =
    leb (128 * 1024 * 1024) h.hunkbytes
    || leb (1024 * 1024 * 1024 * 1024) (u64 (h.hunkbytes * h.totalhunks))

-- `OLD_MAP_ENTRY_SIZE` and `MAP_ENTRY_SIZE`
abbrev pub entry_size : ChdHeader → ℕ
entry_size h = if ltb h.version 3 then 8 else 16

abbrev pub map_end : ChdHeader → ℕ
map_end h = u64 (h.length + u64 (h.totalhunks * entry_size h))

-- Whether the map of the versions 1 to 4 does not fit into the file.
unfoldable pub map_rejected : ℕ → ChdHeader → Bool
map_rejected file_size h =
    ltb h.version 5 && (ltb (map_end h) h.length || ltb file_size (map_end h))

-- The tests after the fields are read.
unfoldable pub validate : ℕ → ChdHeader → ChdError ⊎ ChdHeader
unfolding legacy_rejected size_rejected map_rejected
validate file_size h =
    reject_if
      ((leb h.version 4 && legacy_rejected h) || (size_rejected h || map_rejected file_size h)) h
