-- ===== src/LegacyMap/Safe.antt =====
-- What `map_read` of src/libchdr_chd.c has tested when it succeeds, and that it ends.
use libchdr.Prelude.{
  ℕ, zero, suc, ◌+◌, ◌-◌, ◌*◌, ◌^◌, ◌≤◌, ◌<◌, ◌≡◌, refl, ◌∙◌, arith, min, max, u32, u64,
}
use libchdr.Prelude.{
  List, [], ◌∷◌, ◌++◌, length, length-append, Bool, true, false, ltb, leb, if◌then◌else◌,
}
use libchdr.Prelude.{Option, Bool-cases, Option-cases, inl, inr}
use libchdr.Prelude.{ap}
use libchdr.Prelude.Int.{pos, negsuc, pos_part}
use native.Mathlib.Nat.{mod-eq_of_lt}
use libchdr.LegacyMap.{MapEntry}
use libchdr.LegacyMap.Read.{
  MapHeader, MapResult, error, ok, overrun, map_stack_entries, same_start, end_of_list_cookie,
  entrysize, extract_chunk, has_data, data_end, track_max, map_finish, map_loop, map_read,
  map_entry_size, chunk_entries, chunk_size,
}

-- Every entry with data in the file ends at a place up to the bound, computed in 64 bits.
pub data AllBelow (bound : ℕ) : List MapEntry → Type 0 where
  no_entries : AllBelow bound []
  entry_below :
      {entry : MapEntry} {entries : List MapEntry}
      → (has_data entry ≡ true → data_end entry ≤ bound)
      → AllBelow bound entries
      → AllBelow bound (entry ∷ entries)

AllBelow-mono :
    {a b : ℕ} {entries : List MapEntry} → a ≤ b → AllBelow a entries → AllBelow b entries
AllBelow-mono h no_entries = no_entries
AllBelow-mono h (entry_below f rest) = entry_below (λ e. omega (arith, f e)) (AllBelow-mono h rest)

AllBelow-append :
    {bound : ℕ} {xs ys : List MapEntry}
    → AllBelow bound xs
    → AllBelow bound ys
    → AllBelow bound (xs ++ ys)
AllBelow-append no_entries all = all
AllBelow-append (entry_below f rest) all = entry_below f (AllBelow-append rest all)

raised :
    (b : Bool) (m d : ℕ)
    → (m ≤ (if b then max m d else m)) × (b ≡ true → d ≤ (if b then max m d else m))
raised true m d = (omega arith, λ e. omega arith)
raised false m d = (omega arith, λ e. absurd (cc))

-- For less than 2 ^ 31 hunks the number of entries of a chunk is not negative.
chunk_entries-eq :
    (h : MapHeader) (i : ℕ)
    → h.totalhunks < 2 ^ 31
    → chunk_entries h i ≡ pos (min (h.totalhunks - i) map_stack_entries)
unfolding chunk_entries
chunk_entries-eq h i few =
    let left = h.totalhunks - i in
    let number : u32 left ≡ left = mod-eq_of_lt (omega arith) in
    let small : ltb left (2 ^ 31) ≡ true = ground arith in
    elim (Bool-cases (ltb (map_stack_entries + 0) (left + 0))) [
      | inl many ↦ rw (number, small, many) (ap pos (ground arith))
      | inr not_many ↦ rw (number, small, not_many) (ap pos (ground arith))
    ]

-- The bytes of a chunk of at most 512 entries fit into the array.
chunk_size-le :
    (h : MapHeader) (n : ℕ)
    → n ≤ map_stack_entries
    → (chunk_size h (pos n) ≡ n * entrysize h)
      × (n * entrysize h ≤ map_stack_entries * map_entry_size)
unfolding chunk_size
chunk_size-le h n few = elim (Bool-cases (ltb h.version 3)) [
  | inl old ↦ rw (old) (omega arith, omega arith)
  | inr new ↦ rw (new) (omega arith, omega arith)
]

-- The loop for the maximum goes up, and over every entry.
track_max-AllBelow :
    (maxoffset : ℕ) (entries : List MapEntry)
    → (maxoffset ≤ track_max maxoffset entries) × AllBelow (track_max maxoffset entries) entries
track_max-AllBelow maxoffset [] = (omega arith, no_entries)
track_max-AllBelow maxoffset (entry ∷ entries) =
    let next = if has_data entry then max maxoffset (data_end entry) else maxoffset in
    let (le, all) = track_max-AllBelow next entries in
    let (up, over) = raised (has_data entry) maxoffset (data_end entry) in
    (omega (arith, up, le), entry_below (λ e. omega (arith, over e, le)) all)

length-extract_chunk :
    (h : MapHeader) (raw : List ℕ) (count j : ℕ) → length (extract_chunk h raw count j) ≡ count
length-extract_chunk h raw zero j = refl
length-extract_chunk h raw (suc count) j = omega (arith, length-extract_chunk h raw count (suc j))

module _ (file_size : ℕ) (h : MapHeader) where
  -- An error, or a map with an entry for each hunk, the data of which is in the file.
  pub data IsMap : MapResult → Type 0 where
    refused : {err : _} → IsMap (error err)
    accepted :
        {map : List MapEntry} → length map ≡ h.totalhunks → AllBelow file_size map → IsMap (ok map)

  module _ (seek_and_read : ℕ → ℕ → Option (List ℕ)) where
    map_finish-IsMap :
        (fileoffset maxoffset : ℕ) (map : List MapEntry)
        → length map ≡ h.totalhunks
        → AllBelow maxoffset map
        → IsMap (map_finish seek_and_read file_size h fileoffset maxoffset map)
    unfolding map_finish
    map_finish-IsMap fileoffset maxoffset map size all =
        elim (Option-cases (seek_and_read fileoffset (entrysize h))) [
          | inl failed ↦ rw (failed, map_finish) refused
          | inr (cookie, got) ↦
              elim (Bool-cases (same_start (entrysize h) cookie end_of_list_cookie)) [
                | inr other ↦ rw (got, other, map_finish) refused
                | inl ended ↦ elim (Bool-cases (ltb file_size maxoffset)) [
                  | inl outside ↦ rw (got, ended, outside, map_finish) refused
                  | inr inside ↦
                      rw (got, ended, inside, map_finish)
                        (accepted size (AllBelow-mono (ground arith) all))
                ]
              ]
        ]

    map_loop-IsMap :
        (fuel i fileoffset maxoffset : ℕ) (map : List MapEntry)
        → h.totalhunks < 2 ^ 31
        → h.totalhunks - i < fuel
        → length map ≡ min i h.totalhunks
        → AllBelow maxoffset map
        → IsMap (map_loop seek_and_read file_size h fuel i fileoffset maxoffset map)
    unfolding map_loop
    map_loop-IsMap zero i fileoffset maxoffset map few enough size_map all = absurd (omega arith)
    map_loop-IsMap (suc fuel) i fileoffset maxoffset map few enough size_map all =
        elim (Bool-cases (leb h.totalhunks i)) [
          | inl done ↦
              rw (done, map_loop)
                (map_finish-IsMap fileoffset maxoffset map (size_map ∙ ground arith) all)
          | inr more ↦
              let below : i < h.totalhunks = ground arith in
              let entries = pos_part (chunk_entries h i) in
              let size = chunk_size h (chunk_entries h i) in
              let number = chunk_entries-eq h i few in
              let count : entries ≡ min (h.totalhunks - i) map_stack_entries = ap pos_part number in
              let (size_eq, in_array) =
                chunk_size-le h (min (h.totalhunks - i) map_stack_entries) (omega arith) in
              let bytes = ap (λ e. chunk_size h e) number ∙ size_eq in
              let room : ltb (map_stack_entries * map_entry_size) size ≡ false = ground arith in
              elim (Option-cases (seek_and_read fileoffset size)) [
                | inl failed ↦ rw (more, room, failed, map_loop) refused
                | inr (raw, got) ↦
                    let chunk = extract_chunk h raw entries 0 in
                    let (up, all') = track_max-AllBelow maxoffset chunk in
                    let next : u32 (i + map_stack_entries) ≡ i + map_stack_entries =
                      mod-eq_of_lt (omega arith) in
                    rw (more, room, got, map_loop)
                      (map_loop-IsMap fuel (u32 (i + map_stack_entries)) (u64 (fileoffset + size))
                        (track_max maxoffset chunk) (map ++ chunk) few (omega (arith, next))
                        (omega (
                          arith,
                          length-append map chunk,
                          length-extract_chunk h raw entries 0,
                          count,
                          size_map,
                          next,
                        ))
                        (AllBelow-append (AllBelow-mono up all) all'))
              ]
        ]

    -- For less than 2 ^ 31 hunks, `map_read` ends with an error or with a map that has an entry for each
    -- hunk, and whose entries with data in the file end inside the file, as far as the sum of offset
    -- and length, which is computed in 64 bits, tells. No read of the entries is larger than the
    -- array.
    pub map_read-IsMap :
        (malloc_ok : Bool)
        → h.totalhunks < 2 ^ 31
        → IsMap (map_read seek_and_read file_size h malloc_ok)
    unfolding map_read
    map_read-IsMap true few =
        map_loop-IsMap (suc h.totalhunks) 0 h.length 0 [] few (omega arith) (omega arith) no_entries
    map_read-IsMap false few = refused

-- The number of entries of the first chunk of a map of 2 ^ 31 hunks or more.
chunk_entries-negative :
    (h : MapHeader)
    → 2 ^ 31 ≤ h.totalhunks
    → h.totalhunks < 2 ^ 32
    → chunk_entries h 0 ≡ negsuc (2 ^ 32 - h.totalhunks - 1)
unfolding chunk_entries
chunk_entries-negative h many fits =
    let number : u32 (h.totalhunks - 0) ≡ h.totalhunks = omega arith in
    let large : ltb h.totalhunks (2 ^ 31) ≡ false = ground arith in
    let below : ltb (map_stack_entries + suc (2 ^ 32 - h.totalhunks - 1)) 0 ≡ false =
      ground arith in
    rw (number, large, below) refl

-- The size of a chunk of so many entries less than none wraps to one above that of the array.
chunk_size-negative :
    (h : MapHeader) (n : ℕ)
    → n < 2 ^ 31
    → map_stack_entries * map_entry_size < chunk_size h (negsuc n)
unfolding chunk_size
chunk_size-negative h n small = elim (Bool-cases (ltb h.version 3)) [
  | inl old ↦ rw (old) (omega arith)
  | inr new ↦ rw (new) (omega arith)
]

-- From 2 ^ 31 hunks on, as many as fit into 32 bits, if the `malloc` of the map succeeds, the number of
-- entries of the first chunk is negative as an `int`, and the size of its read, which is computed from
-- it as a `size_t`, is larger than the array.
pub map_read-overrun :
    (seek_and_read : ℕ → ℕ → Option (List ℕ)) (file_size : ℕ) (h : MapHeader)
    → 2 ^ 31 ≤ h.totalhunks
    → h.totalhunks < 2 ^ 32
    → map_read seek_and_read file_size h true ≡ overrun
unfolding map_read map_loop
map_read-overrun seek_and_read file_size h many fits =
    let more : leb h.totalhunks 0 ≡ false = ground arith in
    let above = chunk_size-negative h (2 ^ 32 - h.totalhunks - 1) (omega arith) in
    let full : ltb (map_stack_entries * map_entry_size)
          (chunk_size h (negsuc (2 ^ 32 - h.totalhunks - 1)))
        ≡ true =
      ground arith in
    rw (more, chunk_entries-negative h many fits, full, map_loop) refl
