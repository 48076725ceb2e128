-- ===== src/Header/Read.antt =====
-- `header_read` and `header_guess_unitbytes` of src/libchdr_chd.c. `sscanf` of the C library is an
-- argument: it returns the last of the four numbers of the text of a hard disk, where it finds four.
use libchdr.Prelude.{ℕ, ◌+◌, ◌-◌, u32, List, [], ◌∷◌, get_or}
use libchdr.Prelude.{Bool, true, false, ltb, ◌==◌, not, ◌&&◌, ◌||◌, if◌then◌else◌}
use libchdr.Prelude.{Option, none, some, ◌⊎◌, inl, inr}
use libchdr.Errors.{
  ChdError, no_error, read_error, invalid_data, unsupported_version, invalid_parameter,
  invalid_file,
}
use libchdr.Bytes.{get_bigendian_uint32}
use libchdr.Metadata.{MetadataResult, chd_get_metadata, hard_disk_metadata_tag}
use libchdr.Header.Fields.{
  ChdHeader, start_header, count_of, v5_fields, v3_fields, v4_fields, hunk_length, old_fields,
}
use libchdr.Header.Rejects.{reject_if, validate}

-- `header_sizes`
abbrev pub header_sizes : List ℕ
header_sizes = 76 ∷ 80 ∷ 120 ∷ 108 ∷ 124 ∷ []

-- `CD_FRAME_SIZE`
abbrev pub cd_frame_size : ℕ
cd_frame_size = 2352 + 96

-- The letters "MComprHD"
abbrev pub header_tag : List ℕ
header_tag = 0x4d ∷ 0x43 ∷ 0x6f ∷ 0x6d ∷ 0x70 ∷ 0x72 ∷ 0x48 ∷ 0x44 ∷ []

-- `memcmp` of an array with another one from an index on
abbrev pub same_bytes : List ℕ → List ℕ → ℕ → Bool
same_bytes [] ys i = true
same_bytes (x ∷ xs) ys i = (x == get_or ys i 0) && same_bytes xs ys (i + 1)

unfoldable pub read_v5_fields : List ℕ → ChdHeader → ChdError ⊎ ChdHeader
read_v5_fields raw h =
    reject_if ((get_bigendian_uint32 raw 56 == 0) || (get_bigendian_uint32 raw 60 == 0))
      (v5_fields raw h)

module _ (seek_and_read : ℕ → ℕ → Option (List ℕ)) (sprintf : ℕ → ℕ → ℕ → ℕ → List ℕ)
    (sscanf : List ℕ → Option ℕ) where
  abbrev pub get_text : ChdHeader → ℕ → ChdError × Option MetadataResult
  get_text h tag =
      chd_get_metadata seek_and_read sprintf
        (record {
          version = h.version;
          metaoffset = h.metaoffset;
          hunkbytes = h.hunkbytes;
          obsolete_cylinders = h.obsolete_cylinders;
          obsolete_heads = h.obsolete_heads;
          obsolete_sectors = h.obsolete_sectors;
          obsolete_hunksize = h.obsolete_hunksize;
        })
        tag 0 512

  abbrev pub has_text : ChdHeader → ℕ → Bool
  has_text h tag =
      let (error, result) = get_text h tag in elim error [ no_error ↦ true | _ ↦ false ]

  -- The size of a sector of a hard disk.
  abbrev pub sector_size : ChdHeader → Option ℕ
  sector_size h =
      let (error, result) = get_text h hard_disk_metadata_tag in
      elim error [ no_error ↦ elim result [ some r ↦ sscanf r.output | none ↦ none ] | _ ↦ none ]

  unfoldable pub header_guess_unitbytes : ChdHeader → ℕ
  header_guess_unitbytes h = elim (sector_size h) [
    | some size ↦ u32 size
    | none ↦
        if has_text h 0x43484344
          || has_text h 0x43485452
          || has_text h 0x43485432
          || has_text h 0x43484754
          || has_text h 0x43484744
        then cd_frame_size
        else h.hunkbytes
  ]

  -- The units of the versions 1 to 4, which the header does not have.
  unfoldable pub get_units : ChdHeader → ChdError ⊎ ChdHeader
  unfolding header_guess_unitbytes
  get_units h =
      let unitbytes = header_guess_unitbytes h in
      reject_if (unitbytes == 0)
        (record h { unitbytes = unitbytes; unitcount = count_of h.logicalbytes unitbytes })

  unfoldable pub read_old_fields : List ℕ → ChdHeader → ChdError ⊎ ChdHeader
  unfolding get_units
  read_old_fields raw h =
      if (hunk_length raw h == 0) || ltb 0xffffffff (hunk_length raw h)
      then inl invalid_data
      else get_units (old_fields raw h)

  -- The switch over the version.
  unfoldable pub read_fields : List ℕ → ChdHeader → ChdError ⊎ ChdHeader
  unfolding read_old_fields get_units read_v5_fields
  read_fields raw h =
      if (h.version == 1) || (h.version == 2)
      then read_old_fields raw h
      else if h.version == 3
      then get_units (v3_fields raw h)
      else if h.version == 4
      then get_units (v4_fields raw h)
      else if h.version == 5
      then read_v5_fields raw h
      else inl unsupported_version

  -- After the second read.
  unfoldable pub read_rest : ℕ → List ℕ → ChdHeader → ChdError ⊎ ChdHeader
  unfolding read_fields validate
  read_rest file_size raw h = elim (read_fields raw h) [
    | inl err ↦ inl err
    | inr h' ↦ validate file_size h'
  ]

  -- The two tests say whether `chd` and its callbacks are not `NULL`.
  unfoldable pub header_read : Bool → Bool → ℕ → ChdError ⊎ ChdHeader
  unfolding read_rest
  header_read false has_callbacks file_size = inl invalid_parameter
  header_read true false file_size = inl invalid_file
  header_read true true file_size = elim (seek_and_read 0 16) [
    | none ↦ inl read_error
    | some raw ↦
        let length = get_bigendian_uint32 raw 8 in
        let version = get_bigendian_uint32 raw 12 in
        if not (same_bytes header_tag raw 0)
        then inl invalid_data
        else if (version == 0) || ltb 5 version
        then inl unsupported_version
        else if not (length == get_or header_sizes (version - 1) 0)
        then inl invalid_data
        else elim (seek_and_read 0 length) [
          | none ↦ inl read_error
          | some raw ↦ read_rest file_size raw (start_header length version)
        ]
  ]
