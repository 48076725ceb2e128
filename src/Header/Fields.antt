-- ===== src/Header/Fields.antt =====
-- The fields of a header of each version, as `header_read` of src/libchdr_chd.c takes them from the
-- bytes. The divisions that round up are by numbers that are not 0, or their result is not used.
use libchdr.Prelude.{ℕ, ◌+◌, ◌-◌, ◌*◌, ◌/◌, u32, u64, List, [], ◌∷◌, get_or, replicate}
use libchdr.Prelude.{◌==◌, if◌then◌else◌}
use libchdr.Prelude.Slices.{slice}
use libchdr.Errors.{}
use libchdr.Bytes.{get_bigendian_uint32, get_bigendian_uint64}

-- `struct _chd_header`, without the pointer to the map
pub record ChdHeader : Type 0 where
  pub length : ℕ
  pub version : ℕ
  pub flags : ℕ
  pub compression : List ℕ
  pub hunkbytes : ℕ
  pub totalhunks : ℕ
  pub logicalbytes : ℕ
  pub metaoffset : ℕ
  pub mapoffset : ℕ
  pub md5 : List ℕ
  pub parentmd5 : List ℕ
  pub sha1 : List ℕ
  pub rawsha1 : List ℕ
  pub parentsha1 : List ℕ
  pub unitbytes : ℕ
  pub unitcount : ℕ
  pub hunkcount : ℕ
  pub mapentrybytes : ℕ
  pub obsolete_cylinders : ℕ
  pub obsolete_sectors : ℕ
  pub obsolete_heads : ℕ
  pub obsolete_hunksize : ℕ

-- After `memset`, with the two fields that are read first.
abbrev pub start_header : ℕ → ℕ → ChdHeader
start_header length version = record {
  length = length;
  version = version;
  flags = 0;
  compression = replicate 4 0;
  hunkbytes = 0;
  totalhunks = 0;
  logicalbytes = 0;
  metaoffset = 0;
  mapoffset = 0;
  md5 = replicate 16 0;
  parentmd5 = replicate 16 0;
  sha1 = replicate 20 0;
  rawsha1 = replicate 20 0;
  parentsha1 = replicate 20 0;
  unitbytes = 0;
  unitcount = 0;
  hunkcount = 0;
  mapentrybytes = 0;
  obsolete_cylinders = 0;
  obsolete_sectors = 0;
  obsolete_heads = 0;
  obsolete_hunksize = 0;
}

-- `(logicalbytes + bytes - 1) / bytes` in 64 bits
abbrev pub count_of : ℕ → ℕ → ℕ
count_of logicalbytes bytes = u64 (logicalbytes + bytes - 1) / bytes

-- The fields of the version 5, with the units.
abbrev pub v5_fields : List ℕ → ChdHeader → ChdHeader
v5_fields raw h =
    let hunkbytes = get_bigendian_uint32 raw 56 in
    let unitbytes = get_bigendian_uint32 raw 60 in
    let logicalbytes = get_bigendian_uint64 raw 32 in
    let hunkcount = u32 (count_of logicalbytes hunkbytes) in
    let compression =
      get_bigendian_uint32 raw 16
      ∷ get_bigendian_uint32 raw 20
      ∷ get_bigendian_uint32 raw 24
      ∷ get_bigendian_uint32 raw 28
      ∷ [] in
    record h {
      compression = compression;
      logicalbytes = logicalbytes;
      mapoffset = get_bigendian_uint64 raw 40;
      metaoffset = get_bigendian_uint64 raw 48;
      hunkbytes = hunkbytes;
      hunkcount = hunkcount;
      unitbytes = unitbytes;
      unitcount = count_of logicalbytes unitbytes;
      sha1 = slice raw 84 20;
      parentsha1 = slice raw 104 20;
      rawsha1 = slice raw 64 20;
      mapentrybytes = if get_or compression 0 0 == 0 then 4 else 12;
      totalhunks = hunkcount;
    }

-- The fields of the versions 3 and 4 before the units.
abbrev pub v3_fields : List ℕ → ChdHeader → ChdHeader
v3_fields raw h = record h {
  flags = get_bigendian_uint32 raw 16;
  compression = get_bigendian_uint32 raw 20 ∷ 0 ∷ 0 ∷ 0 ∷ [];
  totalhunks = get_bigendian_uint32 raw 24;
  logicalbytes = get_bigendian_uint64 raw 28;
  metaoffset = get_bigendian_uint64 raw 36;
  md5 = slice raw 44 16;
  parentmd5 = slice raw 60 16;
  hunkbytes = get_bigendian_uint32 raw 76;
  sha1 = slice raw 80 20;
  parentsha1 = slice raw 100 20;
}

abbrev pub v4_fields : List ℕ → ChdHeader → ChdHeader
v4_fields raw h = record h {
  flags = get_bigendian_uint32 raw 16;
  compression = get_bigendian_uint32 raw 20 ∷ 0 ∷ 0 ∷ 0 ∷ [];
  totalhunks = get_bigendian_uint32 raw 24;
  logicalbytes = get_bigendian_uint64 raw 28;
  metaoffset = get_bigendian_uint64 raw 36;
  hunkbytes = get_bigendian_uint32 raw 44;
  sha1 = slice raw 48 20;
  parentsha1 = slice raw 68 20;
  rawsha1 = slice raw 88 20;
}

-- The versions 1 and 2: the bytes of a sector and of a hunk.
abbrev pub sector_length : List ℕ → ChdHeader → ℕ
sector_length raw h = if h.version == 1 then 512 else get_bigendian_uint32 raw 76

abbrev pub hunk_length : List ℕ → ChdHeader → ℕ
hunk_length raw h = u64 (sector_length raw h * get_bigendian_uint32 raw 24)

-- Their fields before the units.
abbrev pub old_fields : List ℕ → ChdHeader → ChdHeader
old_fields raw h =
    let cylinders = get_bigendian_uint32 raw 32 in
    let heads = get_bigendian_uint32 raw 36 in
    let sectors = get_bigendian_uint32 raw 40 in
    record h {
      flags = get_bigendian_uint32 raw 16;
      compression = get_bigendian_uint32 raw 20 ∷ 0 ∷ 0 ∷ 0 ∷ [];
      obsolete_hunksize = get_bigendian_uint32 raw 24;
      totalhunks = get_bigendian_uint32 raw 28;
      obsolete_cylinders = cylinders;
      obsolete_heads = heads;
      obsolete_sectors = sectors;
      md5 = slice raw 44 16;
      parentmd5 = slice raw 60 16;
      logicalbytes = u64 (u64 (u64 (cylinders * heads) * sectors) * sector_length raw h);
      hunkbytes = u32 (hunk_length raw h);
    }
