-- ===== src/LegacyMap/Read.antt =====
-- The map of the versions 1 to 4, `map_read` of src/libchdr_chd.c in the build without LOWRAM_TARGET.
-- Reading the file goes through the callbacks of its owner. The fuel counts the rounds of the loop over
-- the chunks of 512 entries.
use libchdr.Prelude.{ℕ, zero, suc, ◌+◌, ◌-◌, ◌*◌, ◌^◌, max, bit_and, u32, u64, List, [], ◌∷◌, ◌++◌}
use libchdr.Prelude.{get_or, Bool, true, false, ltb, leb, ◌==◌, not, ◌&&◌, ◌||◌, if◌then◌else◌}
use libchdr.Prelude.{Option, none, some}
use libchdr.Prelude.Int.{ℤ, pos, negsuc, pos_part, ltb_ℤ}
use libchdr.Errors.{ChdError, read_error, invalid_file, out_of_memory}
use libchdr.LegacyMap.{
  MapEntry, map_extract, map_extract_old, map_entry_type_compressed, map_entry_type_uncompressed,
}

-- The fields of the header that the function uses.
pub record MapHeader : Type 0 where
  pub length : ℕ
  pub version : ℕ
  pub hunkbytes : ℕ
  pub totalhunks : ℕ

-- An error, the map, a read of more bytes than the array for the chunk has, or a result that is not
-- one of the code.
pub data MapResult : Type 0 where
  error : ChdError → MapResult
  ok : List MapEntry → MapResult
  overrun out_of_fuel : MapResult

-- `MAP_STACK_ENTRIES`
abbrev pub map_stack_entries : ℕ
map_stack_entries = 512

-- `MAP_ENTRY_SIZE`
abbrev pub map_entry_size : ℕ
map_entry_size = 16

-- `END_OF_LIST_COOKIE`, "EndOfListCookie" with its zero
abbrev pub end_of_list_cookie : List ℕ
end_of_list_cookie =
    0x45 ∷ 0x6e ∷ 0x64 ∷ 0x4f ∷ 0x66 ∷ 0x4c ∷ 0x69 ∷ 0x73 ∷ 0x74 ∷ 0x43 ∷ 0x6f ∷ 0x6f ∷ 0x6b ∷ 0x69
    ∷ 0x65 ∷ 0 ∷ []

-- `memcmp` of the first bytes of two arrays
abbrev pub same_start : ℕ → List ℕ → List ℕ → Bool
same_start zero xs ys = true
same_start (suc n) xs ys = same_start n xs ys && (get_or xs n 0 == get_or ys n 0)

abbrev pub entrysize : MapHeader → ℕ
entrysize h = if ltb h.version 3 then 8 else 16

-- The entry at an index of the bytes of a chunk.
abbrev pub extract : MapHeader → List ℕ → ℕ → MapEntry
extract h raw j =
    if entrysize h == 16 then map_extract raw (j * 16) else map_extract_old raw (j * 8) h.hunkbytes

-- The `count` entries of a chunk from index `j` on.
abbrev pub extract_chunk : MapHeader → List ℕ → ℕ → ℕ → List MapEntry
extract_chunk h raw zero j = []
extract_chunk h raw (suc count) j = extract h raw j ∷ extract_chunk h raw count (suc j)

-- A `uint32_t` converted to `int`.
abbrev pub to_int : ℕ → ℤ
to_int n = if ltb n (2 ^ 31) then pos n else negsuc (2 ^ 32 - n - 1)

-- An `int` converted to `size_t`.
abbrev pub to_size : ℤ → ℕ
to_size (pos n) = n
to_size (negsuc n) = 2 ^ 64 - suc n

-- `entries`, an `int`, for the chunk at entry `i`, which is below `totalhunks`.
unfoldable pub chunk_entries : MapHeader → ℕ → ℤ
chunk_entries h i =
    let entries = to_int (u32 (h.totalhunks - i)) in
    if ltb_ℤ (pos map_stack_entries) entries then pos map_stack_entries else entries

-- `entries * (size_t)entrysize`
unfoldable pub chunk_size : MapHeader → ℤ → ℕ
chunk_size h entries = u64 (to_size entries * entrysize h)

-- Whether the data of an entry is in the file.
abbrev pub has_data : MapEntry → Bool
has_data entry =
    (bit_and entry.flags 0x0f == map_entry_type_compressed)
    || (bit_and entry.flags 0x0f == map_entry_type_uncompressed)

abbrev pub data_end : MapEntry → ℕ
data_end entry = u64 (entry.offset + entry.length)

-- The loop for `maxoffset`.
abbrev pub track_max : ℕ → List MapEntry → ℕ
track_max maxoffset [] = maxoffset
track_max maxoffset (entry ∷ entries) =
    track_max (if has_data entry then max maxoffset (data_end entry) else maxoffset) entries

module _ (seek_and_read : ℕ → ℕ → Option (List ℕ)) (file_size : ℕ) (h : MapHeader) where
  -- The tests after the loop.
  unfoldable pub map_finish : ℕ → ℕ → List MapEntry → MapResult
  map_finish fileoffset maxoffset map = elim (seek_and_read fileoffset (entrysize h)) [
    | none ↦ error invalid_file
    | some cookie ↦
        if not (same_start (entrysize h) cookie end_of_list_cookie) || ltb file_size maxoffset
        then error invalid_file
        else ok map
  ]

  -- The loop at entry `i`. The array `raw_map_entries` has `map_stack_entries * map_entry_size` bytes. The
  -- loops over the entries of a chunk make no round where their number is negative.
  unfoldable pub map_loop : ℕ → ℕ → ℕ → ℕ → List MapEntry → MapResult
  unfolding map_finish chunk_entries chunk_size
  map_loop zero i fileoffset maxoffset map = out_of_fuel
  map_loop (suc fuel) i fileoffset maxoffset map = elim (leb h.totalhunks i) [
    | true ↦ map_finish fileoffset maxoffset map
    | false ↦
        let entries = chunk_entries h i in
        let size = chunk_size h entries in
        elim (ltb (map_stack_entries * map_entry_size) size) [
          | true ↦ overrun
          | false ↦ elim (seek_and_read fileoffset size) [
            | none ↦ error read_error
            | some raw ↦
                let chunk = extract_chunk h raw (pos_part entries) 0 in
                map_loop fuel (u32 (i + map_stack_entries)) (u64 (fileoffset + size))
                  (track_max maxoffset chunk) (map ++ chunk)
          ]
        ]
  ]

  -- The test says whether the `malloc` of the map succeeds.
  unfoldable pub map_read : Bool → MapResult
  unfolding map_loop
  map_read malloc_ok =
      if malloc_ok then map_loop (suc h.totalhunks) 0 h.length 0 [] else error out_of_memory
