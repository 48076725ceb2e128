-- ===== src/Hunk/Invariant.antt =====
-- The state of a file and its parents between two reads: the window and the cache of each hold what
-- the file says, and the header and the map are such as the decoders of the map leave them.
use libchdr.Prelude.{ℕ, ◌+◌, ◌*◌, ◌/◌, ◌%◌, ◌^◌, ◌≤◌, ◌<◌, ◌≡◌, ◌∙◌, arith}
use libchdr.Prelude.{List, [], ◌∷◌, ◌++◌, length, get_elem?, Option, some, inr}
use libchdr.Prelude.{length-append, length-replicate}
use libchdr.Prelude.Slices.{length-slice}
use native.Mathlib.Nat.{mod-lt, mul-le-mul_right}
use libchdr.LegacyMap.{MapEntry, map_entry_type_uncompressed}
use libchdr.MapV5.{compression_none, compression_self, compression_parent}
use libchdr.SelfCache.Coherent.{IsCoherent}
use libchdr.ReadAhead.Window.{Reads, IsWindow}
use libchdr.Hunk.State.{
  Header, ChdFile, Environment, map_entry_type_parent_hunk, entry_type, Outcome,
}
use libchdr.Hunk.Stored.{entry_bytes, block_type, block_len, block_offs}
use libchdr.Hunk.Spec.{
  Source, IsHunk, IsAnswer, units, legacy_compressed, legacy_no_codec, legacy_unknown,
  legacy_uncompressed, legacy_mini, legacy_self, legacy_parent, raw_stored, raw_parent, raw_zero,
  block_compressed, block_uncompressed, block_self, block_parent, block_between,
}

-- An entry of a map of the versions 1 to 4.
pub record IsEntry (h : Header) (entry : MapEntry) : Type 0 where
  pub no_wrap :
      entry_type entry ≤ map_entry_type_uncompressed
      → (entry.offset + entry.length < 2 ^ 64) × (entry.offset + h.hunkbytes < 2 ^ 64)
  pub number : entry_type entry ≡ map_entry_type_parent_hunk → entry.offset < 2 ^ 32

-- An entry of a map of the version 5. The hunk is made of whole units, at most 255 of them, where
-- an entry refers to units of the parent.
pub record IsBlockEntry (h : Header) (n : ℕ) : Type 0 where
  pub no_wrap : block_offs h n + block_len h n < 2 ^ 64
  pub whole : block_type h n ≡ compression_none → block_len h n ≡ h.hunkbytes
  pub number : block_type h n ≡ compression_self → block_offs h n < 2 ^ 32
  pub aligned :
      block_type h n ≡ compression_parent
      → (0 < units h)
        × (units h < 256)
        × (units h * h.unitbytes ≡ h.hunkbytes)
        × (block_offs h n / units h + 1 < 2 ^ 32)

pub record IsWellFormed (h : Header) : Type 0 where
  pub few : h.totalhunks < 2 ^ 32
  pub map_size : h.version < 5 → length h.map ≡ h.totalhunks
  pub entries :
      h.version < 5 → (n : ℕ) (entry : MapEntry) → get_elem? h.map n ≡ some entry → IsEntry h entry
  pub rawmap_size :
      5 ≤ h.version
      → (h.mapentrybytes ≡ entry_bytes h)
        × (length h.rawmap ≡ h.mapentrybytes * h.totalhunks)
        × (h.mapentrybytes * h.totalhunks < 2 ^ 32)
  pub blocks : 5 ≤ h.version → (n : ℕ) → n < h.totalhunks → IsBlockEntry h n

-- What the code relies on in what it calls: a codec fills the hunk, and `malloc` returns as many bytes
-- as it is asked for.
pub record IsEnvironment (env : Environment) : Type 0 where
  pub decoded :
      (tag : ℕ) (src : List ℕ) (n : ℕ) (bytes : List ℕ)
      → env.decompress tag src n ≡ inr bytes
      → length bytes ≡ n
  pub allocated : (n : ℕ) (bytes : List ℕ) → env.malloc n ≡ some bytes → length bytes ≡ n
  pub allocated_data :
      (n : ℕ) (blocks : List (List ℕ)) → env.malloc_data n ≡ some blocks → length blocks ≡ n

-- A unit inside a hunk starts before its end.
pub unit-le :
    (unit count unitbytes hunkbytes : ℕ)
    → unit < count
    → count * unitbytes ≡ hunkbytes
    → unit * unitbytes ≤ hunkbytes
unit-le unit count unitbytes hunkbytes below whole =
    omega (arith, mul-le-mul_right {m = unit} {n = count} unitbytes (omega arith), whole)

abbrev pub source : List ℕ → ChdFile → Source
source file chd = record { file = file; header = chd.header }

module _ (env : Environment) (hunkbytes : ℕ) where
  -- One file, with its content.
  pub record IsOpen (file : List ℕ) (ss : List Source) (chd : ChdFile) : Type 0 where
    pub same_size : chd.header.hunkbytes ≡ hunkbytes
    pub reader_size : chd.reader.hunkbytes ≡ chd.header.hunkbytes
    pub well_formed : IsWellFormed chd.header
    pub window : IsWindow file chd.reader
    pub reads : Reads file chd.seek_and_read
    pub cache : IsCoherent (IsHunk env (source file chd ∷ ss)) chd.selfcache

  -- The file and its parents.
  pub data IsChain : List Source → List ChdFile → Type 0 where
    no_file : IsChain [] []
    file_of :
        {file : List ℕ} {ss : List Source} {chd : ChdFile} {chds : List ChdFile}
        → IsOpen file ss chd
        → IsChain ss chds
        → IsChain (source file chd ∷ ss) (chd ∷ chds)

  -- What every call is to do.
  abbrev pub Answers : List Source → ℕ → Outcome → Type 0
  Answers ss n (result, chds) = IsAnswer env ss n result × IsChain ss chds

  abbrev pub HasSize : Option (List ℕ) → Type 0
  HasSize dest = (bytes : List ℕ) → dest ≡ some bytes → length bytes ≡ hunkbytes

  pub IsChain-some :
      {s : Source} {ss : List Source} {chds : List ChdFile}
      → IsChain (s ∷ ss) chds
      → 0 < length chds
  IsChain-some (file_of v c) = omega arith

  -- A hunk has the size of a hunk.
  pub length-IsHunk :
      {ss : List Source} {chds : List ChdFile} {n : ℕ} {bytes : List ℕ}
      → IsEnvironment env
      → IsChain ss chds
      → IsHunk env ss n bytes
      → length bytes ≡ hunkbytes
  length-IsHunk e (file_of v c) (legacy_compressed entry range codec decoded crc) =
      e.decoded _ _ _ _ decoded ∙ v.same_size
  length-IsHunk e (file_of v c) (legacy_no_codec entry no_codec size crc) = size ∙ v.same_size
  length-IsHunk e (file_of v c) (legacy_unknown entry unknown size) = size ∙ v.same_size
  length-IsHunk e (file_of v c) (legacy_uncompressed entry range crc) = range.1 ∙ v.same_size
  length-IsHunk e (file_of v c) (legacy_mini entry pattern crc) = pattern.0 ∙ v.same_size
  length-IsHunk e c (legacy_self entry before h) = length-IsHunk e c h
  length-IsHunk e (file_of v c) (legacy_parent entry h) = length-IsHunk e c h
  length-IsHunk e (file_of v c) (raw_stored raw some_offs range) = range.1 ∙ v.same_size
  length-IsHunk e (file_of v c) (raw_parent raw no_offs h) = length-IsHunk e c h
  length-IsHunk e (file_of v c) (raw_zero raw no_offs) = length-replicate _ 0 ∙ v.same_size
  length-IsHunk e (file_of v c) (block_compressed block type range decoded crc) =
      e.decoded _ _ _ _ decoded ∙ v.same_size
  length-IsHunk e (file_of v c) (block_uncompressed block type range crc) = range.1 ∙ v.same_size
  length-IsHunk e c (block_self block type before h) = length-IsHunk e c h
  length-IsHunk e (file_of v c) (block_parent block type multiple h) = length-IsHunk e c h
  length-IsHunk e (file_of {chd} v c) (block_between {n} {first} {second} block type h h') =
      let u = (v.well_formed.blocks block.0 n block.1).aligned type in
      let one = length-IsHunk e c h in
      let two = length-IsHunk e c h' in
      let q = block_offs chd.header n % units chd.header in
      let below : q < units chd.header = mod-lt (block_offs chd.header n) u.0 in
      let start =
        unit-le q (units chd.header) chd.header.unitbytes chd.header.hunkbytes below u.2 in
      length-slice (first ++ second) (q * chd.header.unitbytes) chd.header.hunkbytes
        (omega (arith, length-append first second, one, two, start, v.same_size))
      ∙ v.same_size
