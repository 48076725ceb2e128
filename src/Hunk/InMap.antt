-- ===== src/Hunk/InMap.antt =====
-- Where the entry of a hunk is: the entries of the two maps of src/libchdr_chd.c that a read of a hunk
-- uses are in the map, and what the type of an entry is that no case knows.
use libchdr.Prelude.{ℕ, zero, suc, ◌≤◌, ◌<◌, ◌≡◌, refl, arith}
use libchdr.Prelude.{List, [], ◌∷◌, length, get_elem?, u32, false, ltb, ◌==◌, ◌⊎◌, ◌*◌}
use libchdr.Prelude.{some, Bool-cases, inl, inr}
use native.Mathlib.Nat.{mod-eq_of_lt}
use libchdr.LegacyMap.{MapEntry, map_entry_type_compressed, map_entry_type_uncompressed}
use libchdr.Hunk.State.{
  Header, first_compression, map_entry_type_mini, map_entry_type_self_hunk,
  map_entry_type_parent_hunk,
}
use libchdr.Hunk.Stored.{outside_rawmap}
use libchdr.Hunk.Spec.{}
use libchdr.Hunk.Invariant.{IsWellFormed}
use libchdr.Hunk.FromFile.{}
use libchdr.Hunk.FromReferences.{}

pub unknown_type :
    (type : ℕ)
    → (type == map_entry_type_compressed) ≡ false
    → (type == map_entry_type_uncompressed) ≡ false
    → (type == map_entry_type_mini) ≡ false
    → (type == map_entry_type_self_hunk) ≡ false
    → (type == map_entry_type_parent_hunk) ≡ false
    → (type < map_entry_type_compressed) ⊎ (map_entry_type_parent_hunk < type)
unknown_type type one two three four five = elim (Bool-cases (ltb type map_entry_type_compressed)) [
  | inl low ↦ inl (ground arith)
  | inr high ↦ inr (ground arith)
]

-- The entries that a file of the version 5 reads are in its map.
pub rawmap-inside :
    (h : Header) (n : ℕ)
    → IsWellFormed h
    → 5 ≤ h.version
    → n < h.totalhunks
    → outside_rawmap h n ≡ false
rawmap-inside h n wf new inside =
    let (bytes, size, fits) = wf.rawmap_size new in
    elim (Bool-cases (first_compression h == 0)) [
      | inl raw ↦
          let four : h.mapentrybytes ≡ 4 = rw raw at bytes in
          let size' = rw four at size in
          let fits' = rw four at fits in
          let place : u32 (4 * n) ≡ 4 * n = mod-eq_of_lt (omega arith) in
          rw (raw, four, place) (ground (arith, size'))
      | inr packed ↦
          let twelve : h.mapentrybytes ≡ 12 = rw packed at bytes in
          let size' = rw twelve at size in
          let fits' = rw twelve at fits in
          let place : u32 (12 * n) ≡ 12 * n = mod-eq_of_lt (omega arith) in
          rw (packed, twelve, place) (ground (arith, size'))
    ]

pub get_elem?-some :
    (xs : List MapEntry) (i : ℕ) → i < length xs → (x : MapEntry) × (get_elem? xs i ≡ some x)
get_elem?-some [] i h = absurd (omega arith)
get_elem?-some (x ∷ xs) zero h = (x, refl)
get_elem?-some (x ∷ xs) (suc i) h = get_elem?-some xs i (omega arith)
