-- ===== src/Metadata/Output.antt =====
-- What `chd_get_metadata` writes into its caller's buffer.
use libchdr.Prelude.{ℕ, ◌+◌, u64, ◌/◌, min, ◌≡◌, arith, List, length, length-take}
use libchdr.Prelude.{Bool, true, false, ◌==◌, if◌then◌else◌, Option, none, some}
use libchdr.Prelude.{
  Option-cases, Bool-cases, sym, refl, inl, inr, ltb, ◌&&◌, ◌||◌, ◌<◌, ◌⊎◌, ap, take,
}
use libchdr.Errors.{ChdError, no_error}
use libchdr.Metadata.{
  metadata_header_size, MetadataHeader, MetadataResult, MetadataEntry, chd_get_metadata,
  metadata_find_entry, faux_metadata, read_metadata, get_found, hard_disk_metadata_tag, wildcard,
}

chosen :
    (c : Bool) (error : ChdError) (f r : MetadataResult)
    → ◌≡◌ {A = ChdError × Option MetadataResult}
        (if c then (no_error, some f) else (error, none))
        (no_error, some r)
    → f ≡ r
chosen true error f r e = cc
chosen false error f r e = cc

module _ (seek_and_read : ℕ → ℕ → Option (List ℕ)) where
  -- The callbacks return as many bytes as they are asked for, when they succeed.
  abbrev pub ReadsFully : Type 0
  ReadsFully =
      (position total_bytes : ℕ) (bytes : List ℕ)
      → seek_and_read position total_bytes ≡ some bytes
      → length bytes ≡ total_bytes

  module _ (sprintf : ℕ → ℕ → ℕ → ℕ → List ℕ) (header : MetadataHeader)
      (searchtag searchindex outputlen : ℕ) where
    -- The text of a hard disk: cylinders, heads, sectors, and the bytes of a sector.
    abbrev pub text : List ℕ
    text =
        sprintf header.obsolete_cylinders header.obsolete_heads header.obsolete_sectors
          (if header.obsolete_hunksize == 0 then 0 else header.hunkbytes / header.obsolete_hunksize)

    -- What the caller gets: the bytes behind the header of an entry, with its length, tag and flags, or
    -- the text that is made up for an old file without such an entry.
    pub data IsMetadata (found : Option MetadataEntry) (r : MetadataResult) : Type 0 where
      stored :
          (entry : MetadataEntry)
          → found ≡ some entry
          → seek_and_read (u64 (entry.offset + metadata_header_size)) (min outputlen entry.length)
            ≡ some r.output
          → r.resultlen ≡ entry.length
          → r.resulttag ≡ entry.metatag
          → r.resultflags ≡ some entry.flags
          → IsMetadata found r
      made_up :
          found ≡ none
          → header.version < 3
          → (searchtag ≡ hard_disk_metadata_tag) ⊎ (searchtag ≡ wildcard)
          → searchindex ≡ 0
          → r.output ≡ take (min outputlen (length text)) text
          → r.resultlen ≡ length text
          → r.resulttag ≡ hard_disk_metadata_tag
          → r.resultflags ≡ none
          → IsMetadata found r

    read_metadata-IsMetadata :
        (entry : MetadataEntry) (r : MetadataResult)
        → read_metadata seek_and_read outputlen entry ≡ (no_error, some r)
        → IsMetadata (some entry) r
    unfolding read_metadata
    read_metadata-IsMetadata entry r e =
        let position = u64 (entry.offset + metadata_header_size) in
        elim (Option-cases (seek_and_read position (min outputlen entry.length))) [
          | inl failed ↦ absurd (ground arith)
          | inr (bytes, read) ↦
              stored entry refl (ground arith) (ground arith) (ground arith) (ground arith)
        ]

    get_found-IsMetadata :
        (error : ChdError) (found : Option MetadataEntry) (r : MetadataResult)
        → get_found seek_and_read sprintf header searchtag searchindex outputlen error found
          ≡ (no_error, some r)
        → IsMetadata found r
    unfolding get_found faux_metadata
    get_found-IsMetadata error none r e =
        let old =
          ltb header.version 3
          && ((searchtag == hard_disk_metadata_tag) || (searchtag == wildcard))
          && (searchindex == 0) in
        let either : old ≡ true → (searchtag ≡ hard_disk_metadata_tag) ⊎ (searchtag ≡ wildcard) =
          λ so. elim (Bool-cases (searchtag == hard_disk_metadata_tag)) [
            | inl one ↦ inl (ground arith)
            | inr other ↦ inr (ground arith)
          ] in
        elim (Bool-cases old) [
          | inl so ↦
              let same = chosen old error (faux_metadata sprintf header outputlen) r e in
              made_up refl (ground arith) (either so) (ground arith) (ap (λ x. x.output) (sym same))
                (ap (λ x. x.resultlen) (sym same)) (ap (λ x. x.resulttag) (sym same))
                (ap (λ x. x.resultflags) (sym same))
          | inr not_so ↦ absurd (ground arith)
        ]
    get_found-IsMetadata error (some entry) r e = read_metadata-IsMetadata entry r e

    length-IsMetadata :
        (found : Option MetadataEntry) (r : MetadataResult)
        → ReadsFully
        → IsMetadata found r
        → length r.output ≡ min outputlen r.resultlen
    length-IsMetadata found r full (stored entry at read len tag flags) = ground (
      arith,
      full (u64 (entry.offset + metadata_header_size)) (min outputlen entry.length) r.output read,
    )
    length-IsMetadata found r full (made_up missing old tag first out len t f) =
        ground (arith, length-take (min outputlen (length text)) text)

    -- On success the caller gets the bytes behind the header of the entry that the search finds, cut off
    -- to the room in the buffer, and the length of all of them, the tag and the flags of this entry; or,
    -- for a version below 3 and where the search finds none, the text that is made up, cut off in the
    -- same way, and its length. The read callback is taken to return as many bytes as it is asked for,
    -- when it succeeds.
    pub chd_get_metadata-IsMetadata :
        (r : MetadataResult)
        → ReadsFully
        → chd_get_metadata seek_and_read sprintf header searchtag searchindex outputlen
          ≡ (no_error, some r)
        → IsMetadata (metadata_find_entry seek_and_read header.metaoffset searchtag searchindex).1 r
          × (length r.output ≡ min outputlen r.resultlen)
    unfolding chd_get_metadata
    chd_get_metadata-IsMetadata r full e =
        let (error, found) =
          metadata_find_entry seek_and_read header.metaoffset searchtag searchindex in
        let got = get_found-IsMetadata error found r e in (got, length-IsMetadata found r full got)
