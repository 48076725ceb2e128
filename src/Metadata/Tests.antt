-- ===== src/Metadata/Tests.antt =====
-- Runs of the metadata functions, on files whose every header is the same 16 bytes.
use libchdr.Prelude.{ℕ, zero, suc, ◌≡◌, refl, ap, arith, List, [], ◌∷◌, length, replicate, take}
use libchdr.Prelude.{
  length-replicate, leb, get_elem?, ◌==◌, if◌then◌else◌, Option, none, some, inl, min, length-take,
}
use libchdr.Bytes.{get_bigendian_uint32, get_bigendian_uint64}
use libchdr.Errors.{no_error, invalid_data}
use libchdr.Metadata.{
  MetadataEntry, MetadataHeader, MetadataResult, extract_entry, metadata_find_entry,
  chd_get_metadata, find_loop, faux_metadata, read_metadata, get_found,
}
use libchdr.Metadata.Find.{
  outcome, matching, IsChain, at_end, link, metadata_find_entry-chain, metadata_find_entry-cycle,
}
use libchdr.Metadata.Output.{ReadsFully, IsMetadata, chd_get_metadata-IsMetadata}

-- The tag "CHTR", flags 1, length 5, and the offset of the next entry.
abbrev header_bytes : ℕ → List ℕ
header_bytes next =
    0x43 ∷ 0x48 ∷ 0x54 ∷ 0x52 ∷ 1 ∷ 0 ∷ 0 ∷ 5 ∷ 0 ∷ 0 ∷ 0 ∷ 0 ∷ 0 ∷ 0 ∷ 0 ∷ next ∷ []

-- A file with one entry, and one whose only entry leads back to itself.
abbrev one_entry : ℕ → ℕ → Option (List ℕ)
one_entry position total_bytes = if total_bytes == 16 then some (header_bytes 0) else none

abbrev cyclic : ℕ → ℕ → Option (List ℕ)
cyclic position total_bytes = if total_bytes == 16 then some (header_bytes 64) else none

abbrev track : MetadataEntry
track = record { offset = 64; next = 0; prev = 0; length = 5; metatag = 0x43485452; flags = 1 }

metadata_find_entry-chain_example :
    metadata_find_entry one_entry 64 0x43485452 0 ≡ (no_error, some track)
unfolding extract_entry get_bigendian_uint32 get_bigendian_uint64
metadata_find_entry-chain_example =
    metadata_find_entry-chain one_entry 64 0x43485452 0 0 (track ∷ [])
      (link (header_bytes 0) (λ e. omega (arith, e)) refl at_end) (inl refl) (omega arith)

abbrev looped : ℕ → MetadataEntry
looped prev = record {
  offset = 64;
  next = 64;
  prev = prev;
  length = 5;
  metatag = 0x43485452;
  flags = 1;
}

looped-IsChain : (n prev : ℕ) → IsChain cyclic 64 64 (replicate n (looped 64)) 64
unfolding extract_entry get_bigendian_uint32 get_bigendian_uint64
looped-IsChain zero prev = at_end
looped-IsChain (suc n) prev =
    link (header_bytes 64) (λ e. omega (arith, e)) refl (looped-IsChain n prev)

metadata_find_entry-cycle_example :
    metadata_find_entry cyclic 64 0x20202020 0
    ≡ outcome cyclic
        (invalid_data, none)
        (get_elem? (matching 0x20202020 (looped 0 ∷ replicate 65535 (looped 64))) 0)
unfolding extract_entry get_bigendian_uint32 get_bigendian_uint64
metadata_find_entry-cycle_example =
    metadata_find_entry-cycle cyclic 64 0x20202020 0 64 (looped 0 ∷ replicate 65535 (looped 64))
      (link (header_bytes 64) (λ e. omega (arith, e)) refl (looped-IsChain 65535 64))
      (λ e. omega (arith, e)) (ap suc (length-replicate 65535 (looped 64)))

-- A file that holds these 16 bytes at every position.
abbrev repeated : ℕ → ℕ → Option (List ℕ)
repeated position total_bytes =
    if leb total_bytes 16 then some (take total_bytes (header_bytes 0)) else none

repeated-ReadsFully : ReadsFully repeated
repeated-ReadsFully position total_bytes bytes e =
    ground (arith, length-take total_bytes (header_bytes 0))

abbrev disk : MetadataHeader
disk = record {
  version = 5;
  metaoffset = 64;
  hunkbytes = 4096;
  obsolete_cylinders = 0;
  obsolete_heads = 0;
  obsolete_sectors = 0;
  obsolete_hunksize = 0;
}

abbrev first_three : MetadataResult
first_three = record {
  output = 0x43 ∷ 0x48 ∷ 0x54 ∷ [];
  resultlen = 5;
  resulttag = 0x43485452;
  resultflags = some 1;
}

chd_get_metadata-IsMetadata_example :
    IsMetadata repeated
      (λ a b c d. [])
      disk
      0x43485452
      0
      3
      (metadata_find_entry repeated disk.metaoffset 0x43485452 0).1
      first_three
    × (length first_three.output ≡ min 3 5)
unfolding chd_get_metadata metadata_find_entry find_loop get_found read_metadata extract_entry
    get_bigendian_uint32 get_bigendian_uint64
chd_get_metadata-IsMetadata_example =
    chd_get_metadata-IsMetadata repeated (λ a b c d. []) disk 0x43485452 0 3 first_three
      repeated-ReadsFully refl

-- A version 2 file without metadata: the text is made up.
faux_run :
    chd_get_metadata
      (λ position total_bytes. none)
      (λ a b c d. a ∷ b ∷ c ∷ d ∷ 0 ∷ [])
      (record {
        version = 2;
        metaoffset = 0;
        hunkbytes = 4096;
        obsolete_cylinders = 10;
        obsolete_heads = 4;
        obsolete_sectors = 17;
        obsolete_hunksize = 8;
      })
      0
      0
      3
    ≡ (
      no_error,
      some (record {
        output = 10 ∷ 4 ∷ 17 ∷ [];
        resultlen = 5;
        resulttag = 0x47444444;
        resultflags = none;
      }),
    )
unfolding chd_get_metadata metadata_find_entry find_loop get_found faux_metadata
faux_run = refl
