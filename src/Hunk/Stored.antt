-- ===== src/Hunk/Stored.antt =====
-- The hunks that are in the file itself: `hunk_read_into_memory` of src/libchdr_chd.c, the cases of
-- the compression types and map entries that read the file.
use libchdr.Prelude.{ℕ, zero, suc, ◌+◌, ◌-◌, ◌*◌, bit_and, u32, u64, List, length}
use libchdr.Prelude.{get_or, set, take, Bool, ltb, ◌==◌}
use libchdr.Prelude.{not, ◌&&◌, ◌||◌, if◌then◌else◌, none, some, inl, inr}
use libchdr.Prelude.Slices.{overwrite}
use libchdr.Errors.{read_error, codec_error, decompression_error}
use libchdr.Bytes.{
  get_bigendian_uint16, get_bigendian_uint24, get_bigendian_uint32, get_bigendian_uint48,
  put_bigendian_uint64,
}
use libchdr.Crc.{chd_crc16}
use libchdr.LegacyMap.{MapEntry, map_entry_flag_no_crc}
use libchdr.ReadAhead.{hunk_read_compressed, hunk_read_uncompressed}
use libchdr.Hunk.State.{Header, ChdFile, Environment, HunkResult, first_compression, ok, error}

-- The test of the checksum in the versions 1 to 4.
unfoldable pub crc32_checked : Environment → MapEntry → ℕ → List ℕ → HunkResult
crc32_checked env entry hunkbytes dest =
    if (bit_and entry.flags map_entry_flag_no_crc == 0)
      && not (env.chd_crc32 (take hunkbytes dest) == entry.crc)
    then error decompression_error
    else ok dest

-- A codec without a function, that of the tag 0, leaves `dest` as it is.
unfoldable pub legacy_compressed : Environment → ChdFile → MapEntry → List ℕ → HunkResult × ChdFile
legacy_compressed env chd entry dest =
    let h = chd.header in
    let (src, r) = hunk_read_compressed chd.seek_and_read chd.reader entry.offset entry.length in
    (
      elim src [
        | none ↦ error read_error
        | some bytes ↦
            if first_compression h == 0
            then crc32_checked env entry h.hunkbytes dest
            else elim (env.decompress (first_compression h) bytes h.hunkbytes) [
              | inl err ↦ error err
              | inr decoded ↦ crc32_checked env entry h.hunkbytes decoded
            ]
      ],
      record chd { reader = r },
    )

unfoldable pub legacy_uncompressed :
    Environment → ChdFile → MapEntry → List ℕ → HunkResult × ChdFile
legacy_uncompressed env chd entry dest =
    let h = chd.header in
    let (bytes, r) = hunk_read_uncompressed chd.seek_and_read chd.reader entry.offset h.hunkbytes in
    (
      elim bytes [
        | none ↦ error read_error
        | some bytes ↦ crc32_checked env entry h.hunkbytes (overwrite dest 0 bytes)
      ],
      record chd { reader = r },
    )

-- The loop over `bytes`, which is `i`, with `count` rounds left.
abbrev pub mini_fill : ℕ → ℕ → List ℕ → List ℕ
mini_fill zero i dest = dest
mini_fill (suc count) i dest = mini_fill count (suc i) (set dest i (get_or dest (i - 8) 0))

unfoldable pub legacy_mini : Environment → Header → MapEntry → List ℕ → HunkResult
legacy_mini env h entry dest =
    if ltb h.hunkbytes 8
    then error decompression_error
    else crc32_checked env entry h.hunkbytes
        (mini_fill (h.hunkbytes - 8) 8 (put_bigendian_uint64 dest 0 entry.offset))

-- The codecs that the switch of the version 5 knows.
abbrev pub is_codec : ℕ → Bool
is_codec tag =
    (tag == 0x7a6c6962)
    || (tag == 0x6c7a6d61)
    || (tag == 0x68756666)
    || (tag == 0x666c6163)
    || (tag == 0x7a737464)
    || (tag == 0x63647a6c)
    || (tag == 0x63646c7a)
    || (tag == 0x6364666c)
    || (tag == 0x63647a73)
    || (tag == 0x61766875)

unfoldable pub crc16_checked : ℕ → ℕ → List ℕ → HunkResult
crc16_checked hunkbytes blockcrc dest =
    if chd_crc16 (take hunkbytes dest) == blockcrc then ok dest else error decompression_error

-- The index of an entry in the map of the version 5.
abbrev pub entry_base : Header → ℕ → ℕ
entry_base h hunknum = u32 (h.mapentrybytes * hunknum)

-- How many bytes of an entry are read.
abbrev pub entry_bytes : Header → ℕ
entry_bytes h = if first_compression h == 0 then 4 else 12

-- Whether the bytes of an entry are not all in the map.
abbrev pub outside_rawmap : Header → ℕ → Bool
outside_rawmap h hunknum = ltb (length h.rawmap) (entry_base h hunknum + entry_bytes h)

abbrev pub block_type : Header → ℕ → ℕ
block_type h hunknum = get_or h.rawmap (entry_base h hunknum) 0

abbrev pub block_len : Header → ℕ → ℕ
block_len h hunknum = get_bigendian_uint24 h.rawmap (entry_base h hunknum + 1)

abbrev pub block_offs : Header → ℕ → ℕ
block_offs h hunknum = get_bigendian_uint48 h.rawmap (entry_base h hunknum + 4)

abbrev pub block_crc : Header → ℕ → ℕ
block_crc h hunknum = get_bigendian_uint16 h.rawmap (entry_base h hunknum + 10)

-- The offset of a hunk in a file without compression.
abbrev pub raw_offs : Header → ℕ → ℕ
raw_offs h hunknum = u64 (get_bigendian_uint32 h.rawmap (entry_base h hunknum) * h.hunkbytes)

unfoldable pub v5_compressed : Environment → ChdFile → ℕ → HunkResult × ChdFile
v5_compressed env chd hunknum =
    let h = chd.header in
    let (src, r) =
      hunk_read_compressed chd.seek_and_read chd.reader (block_offs h hunknum)
        (block_len h hunknum) in
    let tag = get_or h.compression (block_type h hunknum) 0 in
    (
      elim src [
        | none ↦ error read_error
        | some bytes ↦
            if is_codec tag
            then elim (env.decompress tag bytes h.hunkbytes) [
              | inl err ↦ error err
              | inr decoded ↦ crc16_checked h.hunkbytes (block_crc h hunknum) decoded
            ]
            else error codec_error
      ],
      record chd { reader = r },
    )

unfoldable pub v5_uncompressed : ChdFile → ℕ → List ℕ → HunkResult × ChdFile
v5_uncompressed chd hunknum dest =
    let h = chd.header in
    let (bytes, r) =
      hunk_read_uncompressed chd.seek_and_read chd.reader (block_offs h hunknum)
        (block_len h hunknum) in
    (
      elim bytes [
        | none ↦ error read_error
        | some bytes ↦ crc16_checked h.hunkbytes (block_crc h hunknum) (overwrite dest 0 bytes)
      ],
      record chd { reader = r },
    )
