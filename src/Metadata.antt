-- ===== src/Metadata.antt =====
-- The metadata of src/libchdr_chd.c: a linked list of entries in the file, each with a header of
-- 16 bytes. Reading the file at a position goes through the callbacks of the file's owner: it is
-- an argument, `seek_and_read`, which returns the bytes or `none` where a callback fails.
pub mod Find
pub mod Output
mod Tests
use libchdr.Prelude.{ℕ, zero, suc, ◌+◌, ◌/◌, min, u8, u64, bit_and, ◌>>>◌, List, take, length}
use libchdr.Prelude.{Bool, true, false, ltb, ◌==◌, ◌&&◌, ◌||◌, if◌then◌else◌, Option, none, some}
use libchdr.Bytes.{get_bigendian_uint32, get_bigendian_uint64}
use libchdr.Errors.{ChdError, no_error, invalid_data, read_error, metadata_not_found}

abbrev pub metadata_header_size : ℕ
metadata_header_size = 16

-- `CHD_MAX_METADATA_ENTRIES`
abbrev pub max_metadata_entries : ℕ
max_metadata_entries = 65536

-- `CHDMETATAG_WILDCARD`
abbrev pub wildcard : ℕ
wildcard = 0

-- `HARD_DISK_METADATA_TAG`, the letters "GDDD"
abbrev pub hard_disk_metadata_tag : ℕ
hard_disk_metadata_tag = 0x47444444

-- `struct _metadata_entry`
pub record MetadataEntry : Type 0 where
  pub offset : ℕ
  pub next : ℕ
  pub prev : ℕ
  pub length : ℕ
  pub metatag : ℕ
  pub flags : ℕ

-- The fields of an entry from its header.
pub extract_entry : ℕ → ℕ → List ℕ → MetadataEntry
extract_entry offset prev raw_meta_header =
    let length = get_bigendian_uint32 raw_meta_header 4 in
    record {
      offset = offset;
      next = get_bigendian_uint64 raw_meta_header 8;
      prev = prev;
      length = bit_and length 0x00ffffff;
      metatag = get_bigendian_uint32 raw_meta_header 0;
      flags = u8 (length >>> 24);
    }

abbrev pub matches : ℕ → MetadataEntry → Bool
matches metatag entry = (metatag == wildcard) || (entry.metatag == metatag)

-- The loop of `metadata_find_entry` at `offset`; `left` is the number of entries that it may
-- still visit.
pub find_loop : (ℕ → ℕ → Option (List ℕ)) → ℕ → ℕ → ℕ → ℕ → ℕ → ChdError × Option MetadataEntry
find_loop seek_and_read zero metatag metaindex offset prev =
    (if offset == 0 then metadata_not_found else invalid_data, none)
find_loop seek_and_read (suc left) metatag metaindex offset prev = elim (offset == 0) [
  | true ↦ (metadata_not_found, none)
  | false ↦ elim (seek_and_read offset metadata_header_size) [
    | none ↦ (metadata_not_found, none)
    | some raw_meta_header ↦
        let entry = extract_entry offset prev raw_meta_header in
        elim (matches metatag entry) [
          | true ↦ elim metaindex [
            | zero ↦ (no_error, some entry)
            | suc metaindex' ↦ find_loop seek_and_read left metatag metaindex' entry.next offset
          ]
          | false ↦ find_loop seek_and_read left metatag metaindex entry.next offset
        ]
  ]
]

-- The entry is returned on success only; no caller reads it otherwise.
pub metadata_find_entry : (ℕ → ℕ → Option (List ℕ)) → ℕ → ℕ → ℕ → ChdError × Option MetadataEntry
unfolding find_loop
metadata_find_entry seek_and_read metaoffset metatag metaindex =
    find_loop seek_and_read max_metadata_entries metatag metaindex metaoffset 0

-- What `chd_get_metadata` stores through its pointers: the bytes of `output`, `*resultlen`,
-- `*resulttag`, and `*resultflags` where it sets it.
pub record MetadataResult : Type 0 where
  pub output : List ℕ
  pub resultlen : ℕ
  pub resulttag : ℕ
  pub resultflags : Option ℕ

-- The fields of `chd_header` that the metadata functions use.
pub record MetadataHeader : Type 0 where
  pub version : ℕ
  pub metaoffset : ℕ
  pub hunkbytes : ℕ
  pub obsolete_cylinders : ℕ
  pub obsolete_heads : ℕ
  pub obsolete_sectors : ℕ
  pub obsolete_hunksize : ℕ

-- The text for a hard disk of an old version. `sprintf` of the C library is an argument too: it
-- gets the numbers before their cast to `int` and returns the text with its closing zero.
pub faux_metadata : (ℕ → ℕ → ℕ → ℕ → List ℕ) → MetadataHeader → ℕ → MetadataResult
faux_metadata sprintf header outputlen =
    let sector =
      if header.obsolete_hunksize == 0 then 0 else header.hunkbytes / header.obsolete_hunksize in
    let faux =
      sprintf header.obsolete_cylinders header.obsolete_heads header.obsolete_sectors sector in
    record {
      output = take (min outputlen (length faux)) faux;
      resultlen = length faux;
      resulttag = hard_disk_metadata_tag;
      resultflags = none;
    }

pub read_metadata : (ℕ → ℕ → Option (List ℕ)) → ℕ → MetadataEntry → ChdError × Option MetadataResult
read_metadata seek_and_read outputlen entry =
    elim (seek_and_read (u64 (entry.offset + metadata_header_size)) (min outputlen entry.length)) [
      | none ↦ (read_error, none)
      | some bytes ↦ (
        no_error,
        some (record {
          output = bytes;
          resultlen = entry.length;
          resulttag = entry.metatag;
          resultflags = some entry.flags;
        }),
      )
    ]

-- The part of `chd_get_metadata` after the search; the result is `none` where it returns an error.
pub get_found :
    (ℕ → ℕ → Option (List ℕ))
    → (ℕ → ℕ → ℕ → ℕ → List ℕ)
    → MetadataHeader
    → ℕ
    → ℕ
    → ℕ
    → ChdError
    → Option MetadataEntry
    → ChdError × Option MetadataResult
unfolding faux_metadata read_metadata
get_found seek_and_read sprintf header searchtag searchindex outputlen error none =
    if ltb header.version 3
      && ((searchtag == hard_disk_metadata_tag) || (searchtag == wildcard))
      && (searchindex == 0)
    then (no_error, some (faux_metadata sprintf header outputlen))
    else (error, none)
get_found seek_and_read sprintf header searchtag searchindex outputlen error (some entry) =
    read_metadata seek_and_read outputlen entry

pub chd_get_metadata :
    (ℕ → ℕ → Option (List ℕ))
    → (ℕ → ℕ → ℕ → ℕ → List ℕ)
    → MetadataHeader
    → ℕ
    → ℕ
    → ℕ
    → ChdError × Option MetadataResult
unfolding metadata_find_entry get_found
chd_get_metadata seek_and_read sprintf header searchtag searchindex outputlen =
    let (error, found) =
      metadata_find_entry seek_and_read header.metaoffset searchtag searchindex in
    get_found seek_and_read sprintf header searchtag searchindex outputlen error found
