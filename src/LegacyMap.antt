-- ===== src/LegacyMap.antt =====
-- The entries of the maps of versions 1 to 4, `map_extract` and `map_extract_old` of
-- src/libchdr_chd.c. The pointer `&base[i]` is the array with the index `i`.
pub mod Fields
pub mod Read
pub mod Safe
mod Tests
use libchdr.Prelude.{ℕ, ◌+◌, ◌-◌, ◌*◌, ◌/◌, ◌%◌, ◌^◌, bit_or, u32, u64, ◌<<<◌, ◌>>>◌}
use libchdr.Prelude.{List, get_or, ltb, ◌==◌, if◌then◌else◌, Option, none, some}
use libchdr.Bytes.{get_bigendian_uint16, get_bigendian_uint32, get_bigendian_uint64}

-- `MAP_ENTRY_FLAG_NO_CRC`
abbrev pub map_entry_flag_no_crc : ℕ
map_entry_flag_no_crc = 0x10

-- `V34_MAP_ENTRY_TYPE_COMPRESSED`
abbrev pub map_entry_type_compressed : ℕ
map_entry_type_compressed = 1

-- `V34_MAP_ENTRY_TYPE_UNCOMPRESSED`
abbrev pub map_entry_type_uncompressed : ℕ
map_entry_type_uncompressed = 2

-- `struct _map_entry`
pub record MapEntry : Type 0 where
  pub offset : ℕ
  pub crc : ℕ
  pub length : ℕ
  pub flags : ℕ

pub map_extract : List ℕ → ℕ → MapEntry
map_extract base i = record {
  offset = get_bigendian_uint64 base i;
  crc = get_bigendian_uint32 base (i + 8);
  length = bit_or (get_bigendian_uint16 base (i + 12)) (get_or base (i + 14) 0 <<< 16);
  flags = get_or base (i + 15) 0;
}

pub map_extract_old : List ℕ → ℕ → ℕ → MapEntry
map_extract_old base i hunkbytes =
    let offset = get_bigendian_uint64 base i in
    let length = u32 (offset >>> 44) in
    let type =
      if length == hunkbytes then map_entry_type_uncompressed else map_entry_type_compressed in
    record {
      offset = u64 (offset <<< 20) >>> 20;
      crc = 0;
      length = length;
      flags = bit_or map_entry_flag_no_crc type;
    }
