-- ===== src/Hunk/Read.antt =====
-- `hunk_read_into_memory` and `chd_read` of src/libchdr_chd.c, from the cases. The function calls
-- itself for an earlier hunk of the same file and for a hunk of the parent: the inner fuel counts the
-- hunks, the outer one the parents.
use libchdr.Prelude.{ℕ, zero, suc, u32, List, [], ◌∷◌}
use libchdr.Prelude.{length, get_elem?, replicate, ltb, leb, ◌==◌}
use libchdr.Prelude.{not, if◌then◌else◌, Option, none, some}
use libchdr.Errors.{
  read_error, decompression_error, hunk_out_of_range, invalid_parameter, invalid_file,
}
use libchdr.Bytes.{}
use libchdr.LegacyMap.{map_entry_type_compressed, map_entry_type_uncompressed}
use libchdr.MapV5.{compression_type_3, compression_none, compression_self, compression_parent}
use libchdr.Hunk.State.{
  map_entry_type_mini, map_entry_type_self_hunk, map_entry_type_parent_hunk, ChdFile, Environment,
  Outcome, ReadHunk, chd_compressed, entry_type, ok, error, undefined, out_of_fuel,
}
use libchdr.Hunk.Stored.{
  legacy_compressed, legacy_uncompressed, legacy_mini, block_type, outside_rawmap, raw_offs,
  v5_compressed, v5_uncompressed,
}
use libchdr.Hunk.References.{with_parent, from_parent, v5_parent, v5_self}

-- The body for one hunk: the calls of the function itself are the arguments `self`, for a hunk of the
-- same file, and `parent`.
unfoldable pub read_legacy :
    Environment → ReadHunk → ReadHunk → ChdFile → List ChdFile → ℕ → List ℕ → Outcome
unfolding legacy_compressed legacy_uncompressed legacy_mini from_parent
read_legacy env self parent chd parents hunknum dest = elim (get_elem? chd.header.map hunknum) [
  | none ↦ (undefined, chd ∷ parents)
  | some entry ↦
      let type = entry_type entry in
      if type == map_entry_type_compressed
      then (let (result, chd') = legacy_compressed env chd entry dest in (result, chd' ∷ parents))
      else if type == map_entry_type_uncompressed
      then (let (result, chd') = legacy_uncompressed env chd entry dest in (result, chd' ∷ parents))
      else if type == map_entry_type_mini
      then (legacy_mini env chd.header entry dest, chd ∷ parents)
      else if type == map_entry_type_self_hunk
      then (if leb hunknum entry.offset
          then (error decompression_error, chd ∷ parents)
          else self (u32 entry.offset) (some dest) (chd ∷ parents))
      else if type == map_entry_type_parent_hunk
      then from_parent parent chd parents (u32 entry.offset) (some dest)
      else (ok dest, chd ∷ parents)
]

-- A hunk that is not in a file without compression.
unfoldable pub raw_missing : ReadHunk → ChdFile → List ChdFile → ℕ → List ℕ → Outcome
raw_missing parent chd [] hunknum dest = (ok (replicate chd.header.hunkbytes 0), chd ∷ [])
raw_missing parent chd (p ∷ ps) hunknum dest = with_parent parent chd (p ∷ ps) hunknum (some dest)

-- A file of the version 5 without compression.
unfoldable pub read_raw : ReadHunk → ChdFile → List ChdFile → ℕ → List ℕ → Outcome
unfolding raw_missing
read_raw parent chd parents hunknum dest =
    let h = chd.header in
    if raw_offs h hunknum == 0
    then raw_missing parent chd parents hunknum dest
    else elim (chd.seek_and_read (raw_offs h hunknum) h.hunkbytes) [
      | none ↦ (error read_error, chd ∷ parents)
      | some bytes ↦ (ok bytes, chd ∷ parents)
    ]

unfoldable pub read_v5 :
    Environment → ReadHunk → ReadHunk → ChdFile → List ChdFile → ℕ → List ℕ → Outcome
unfolding read_raw v5_compressed v5_uncompressed v5_self v5_parent
read_v5 env self parent chd parents hunknum dest =
    let type = block_type chd.header hunknum in
    if outside_rawmap chd.header hunknum
    then (undefined, chd ∷ parents)
    else if not (chd_compressed chd.header)
    then read_raw parent chd parents hunknum dest
    else if leb type compression_type_3
    then (let (result, chd') = v5_compressed env chd hunknum in (result, chd' ∷ parents))
    else if type == compression_none
    then (let (result, chd') = v5_uncompressed chd hunknum dest in (result, chd' ∷ parents))
    else if type == compression_self
    then v5_self env self chd parents hunknum dest
    else if type == compression_parent
    then v5_parent env parent chd parents hunknum dest
    else (error decompression_error, chd ∷ parents)

-- After the test of the callbacks.
unfoldable pub hunk_open :
    Environment → ReadHunk → ReadHunk → ChdFile → List ChdFile → ℕ → Option (List ℕ) → Outcome
unfolding read_legacy read_v5
hunk_open env self parent chd parents hunknum dest =
    if leb chd.header.totalhunks hunknum
    then (error hunk_out_of_range, chd ∷ parents)
    else elim dest [
      | none ↦ (error invalid_parameter, chd ∷ parents)
      | some memory ↦
          if ltb chd.header.version 5
          then read_legacy env self parent chd parents hunknum memory
          else read_v5 env self parent chd parents hunknum memory
    ]

-- The empty list is a null pointer.
unfoldable pub hunk_step : Environment → ReadHunk → ReadHunk → ReadHunk
unfolding hunk_open
hunk_step env self parent hunknum dest [] = (undefined, [])
hunk_step env self parent hunknum dest (chd ∷ parents) =
    if chd.has_callbacks
    then hunk_open env self parent chd parents hunknum dest
    else (error invalid_file, chd ∷ parents)

-- The calls for earlier hunks of the same file, on the inner fuel.
unfoldable pub hunk_self : Environment → ReadHunk → ℕ → ReadHunk
unfolding hunk_step
hunk_self env parent zero hunknum dest chds = (out_of_fuel, chds)
hunk_self env parent (suc fuel) hunknum dest chds =
    hunk_step env (hunk_self env parent fuel) parent hunknum dest chds

-- The calls for the parent, on the outer fuel, which counts the files and one more.
unfoldable pub hunk_at : Environment → ℕ → ReadHunk
unfolding hunk_self
hunk_at env zero hunknum dest chds = (out_of_fuel, chds)
hunk_at env (suc depth) hunknum dest chds =
    hunk_self env (hunk_at env depth) (suc hunknum) hunknum dest chds

unfoldable pub hunk_read_into_memory : Environment → ReadHunk
unfolding hunk_at
hunk_read_into_memory env hunknum dest chds = hunk_at env (suc (length chds)) hunknum dest chds

-- The file is open.
unfoldable pub chd_read : Environment → ReadHunk
chd_read env hunknum buffer [] = (error invalid_parameter, [])
chd_read env hunknum buffer (chd ∷ parents) =
    if leb chd.header.totalhunks hunknum
    then (error hunk_out_of_range, chd ∷ parents)
    else hunk_read_into_memory env hunknum buffer (chd ∷ parents)
