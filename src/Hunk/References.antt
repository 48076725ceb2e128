-- ===== src/Hunk/References.antt =====
-- The hunks that are elsewhere: `hunk_read_into_memory` of src/libchdr_chd.c, the cases of a hunk of
-- the parent and of an earlier hunk of the same file.
use libchdr.Prelude.{ℕ, ◌+◌, ◌-◌, ◌*◌, ◌/◌, ◌%◌, u8, u32, List, [], ◌∷◌}
use libchdr.Prelude.{leb, ◌==◌}
use libchdr.Prelude.{if◌then◌else◌, Option, none, some}
use libchdr.Prelude.Slices.{slice, overwrite}
use libchdr.Errors.{decompression_error, requires_parent}
use libchdr.Bytes.{}
use libchdr.LegacyMap.{}
use libchdr.SelfCache.{selfcache_ensure, selfcache_lookup, selfcache_store}
use libchdr.Hunk.State.{
  Header, ChdFile, Environment, Outcome, ReadHunk, ok, error, undefined, out_of_fuel,
}
use libchdr.Hunk.Stored.{block_offs}

-- The call for a hunk of the parent, which there is.
abbrev pub with_parent : ReadHunk → ChdFile → List ChdFile → ℕ → Option (List ℕ) → Outcome
with_parent parent chd parents hunknum dest =
    let (result, parents') = parent hunknum dest parents in (result, chd ∷ parents')

-- The call for a hunk of the parent, where there may be none.
unfoldable pub from_parent : ReadHunk → ChdFile → List ChdFile → ℕ → Option (List ℕ) → Outcome
from_parent parent chd [] hunknum dest = (error requires_parent, chd ∷ [])
from_parent parent chd (p ∷ ps) hunknum dest = with_parent parent chd (p ∷ ps) hunknum dest

-- The memory at `dest` after the two `memcpy` of a hunk that lies in two hunks of the parent.
abbrev pub joined : ℕ → ℕ → ℕ → List ℕ → List ℕ → List ℕ → List ℕ
joined unitbytes units unit dest first second =
    overwrite (overwrite dest 0 (slice first (unit * unitbytes) ((units - unit) * unitbytes)))
      ((units - unit) * unitbytes) (slice second 0 (unit * unitbytes))

-- After the read of the second hunk.
abbrev pub second_half : ChdFile → ℕ → ℕ → List ℕ → List ℕ → Outcome → Outcome
second_half chd units unit dest first (ok second, parents) =
    (ok (joined chd.header.unitbytes units unit dest first second), chd ∷ parents)
second_half chd units unit dest first (error err, parents) = (error err, chd ∷ parents)
second_half chd units unit dest first (undefined, parents) = (undefined, chd ∷ parents)
second_half chd units unit dest first (out_of_fuel, parents) = (out_of_fuel, chd ∷ parents)

-- After the read of the first hunk: the second one is read into the same `buf`.
abbrev pub first_half : ReadHunk → ChdFile → ℕ → ℕ → ℕ → List ℕ → Outcome → Outcome
first_half parent chd block units unit dest (ok first, parents) =
    second_half chd units unit dest first (parent (u32 (block / units + 1)) (some first) parents)
first_half parent chd block units unit dest (error err, parents) = (error err, chd ∷ parents)
first_half parent chd block units unit dest (undefined, parents) = (undefined, chd ∷ parents)
first_half parent chd block units unit dest (out_of_fuel, parents) = (out_of_fuel, chd ∷ parents)

-- A hunk in two hunks of the parent.
abbrev pub from_two :
    ReadHunk → ChdFile → List ChdFile → ℕ → ℕ → ℕ → List ℕ → Option (List ℕ) → Outcome
from_two parent chd parents block units unit dest buf =
    first_half parent chd block units unit dest (parent (u32 (block / units)) buf parents)

-- `units_in_hunk`, a `uint8_t`
abbrev pub units_in_hunk : Header → ℕ
units_in_hunk h = u8 (h.hunkbytes / h.unitbytes)

unfoldable pub v5_parent : Environment → ReadHunk → ChdFile → List ChdFile → ℕ → List ℕ → Outcome
v5_parent env parent chd [] hunknum dest = (error requires_parent, chd ∷ [])
v5_parent env parent chd (p ∷ ps) hunknum dest =
    let units = units_in_hunk chd.header in
    let block = block_offs chd.header hunknum in
    if units == 0
    then (undefined, chd ∷ (p ∷ ps))
    else if block % units == 0
    then with_parent parent chd (p ∷ ps) (u32 (block / units)) (some dest)
    else from_two parent chd (p ∷ ps) block units (block % units) dest
        (env.malloc chd.header.hunkbytes)

-- `selfcache_store` after the read of the target.
abbrev pub store_target : ℕ → Outcome → Outcome
store_target target (ok bytes, chd ∷ parents) =
    (ok bytes, record chd { selfcache = selfcache_store chd.selfcache target bytes } ∷ parents)
store_target target (ok bytes, []) = (ok bytes, [])
store_target target (error err, chds) = (error err, chds)
store_target target (undefined, chds) = (undefined, chds)
store_target target (out_of_fuel, chds) = (out_of_fuel, chds)

unfoldable pub v5_self : Environment → ReadHunk → ChdFile → List ChdFile → ℕ → List ℕ → Outcome
v5_self env self chd parents hunknum dest =
    let c = chd.selfcache in
    let target = u32 (block_offs chd.header hunknum) in
    if leb hunknum target
    then (error decompression_error, chd ∷ parents)
    else elim (if c.entries == 0 then none else selfcache_lookup c target) [
      | some bytes ↦ (ok bytes, chd ∷ parents)
      | none ↦
          let c' = (selfcache_ensure env.malloc_data env.malloc_hunk chd.header.hunkbytes c).1 in
          store_target target (self target (some dest) (record chd { selfcache = c' } ∷ parents))
    ]
