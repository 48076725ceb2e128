-- ===== src/MapV5.antt =====
-- The two passes of `decompress_v5_map` of src/libchdr_chd.c, in the build without LOWRAM_TARGET.
-- The map has 12 bytes for each hunk. The first pass writes the first byte of each, its compression
-- type: here, the list of these bytes. The second pass writes the other bytes from them.
pub mod Types
pub mod Offsets
pub mod Entries
pub mod Size
mod Tests
use libchdr.Prelude.{ℕ, zero, suc, ◌+◌, ◌-◌, ◌*◌, ◌/◌, u8, u16, u32, u64, ◌<<<◌, List, [], ◌∷◌}
use libchdr.Prelude.{replicate, Bool, true, false, ltb, leb, ◌==◌, ◌||◌, if◌then◌else◌}
use libchdr.Prelude.{Option, none, some}
use libchdr.Bytes.{put_bigendian_uint16, put_bigendian_uint24, put_bigendian_uint48}
use libchdr.Bitstream.{Bitstream, bitstream_read, bitstream_overflow}
use libchdr.Huffman.{HuffmanDecoder, huffman_decode_one}

-- The codes of `enum` in the source: the base types, then the pseudo-types.
abbrev pub compression_type_3 : ℕ
compression_type_3 = 3

abbrev pub compression_none : ℕ
compression_none = 4

abbrev pub compression_self : ℕ
compression_self = 5

abbrev pub compression_parent : ℕ
compression_parent = 6

abbrev pub compression_rle_small : ℕ
compression_rle_small = 7

abbrev pub compression_rle_large : ℕ
compression_rle_large = 8

abbrev pub compression_self_0 : ℕ
compression_self_0 = 9

abbrev pub compression_self_1 : ℕ
compression_self_1 = 10

abbrev pub compression_parent_self : ℕ
compression_parent_self = 11

abbrev pub compression_parent_0 : ℕ
compression_parent_0 = 12

abbrev pub compression_parent_1 : ℕ
compression_parent_1 = 13

-- The variables of the first pass.
pub record TypeState : Type 0 where
  pub repcount : ℕ
  pub lastcomp : ℕ
  pub bitbuf : Bitstream

-- What follows a code in the first pass: the type to write and the new state.
unfoldable pub type_code : HuffmanDecoder → ℕ → ℕ → Bitstream → ℕ × TypeState
type_code decoder lastcomp val bitbuf =
    if val == compression_rle_small
    then (let (count, bitbuf') = huffman_decode_one decoder bitbuf in
        (lastcomp, record { repcount = 2 + count; lastcomp = lastcomp; bitbuf = bitbuf' }))
    else if val == compression_rle_large
    then (let (high, bitbuf') = huffman_decode_one decoder bitbuf in
        let (low, bitbuf'') = huffman_decode_one decoder bitbuf' in
        (
          lastcomp,
          record { repcount = 2 + 16 + (high <<< 4) + low; lastcomp = lastcomp; bitbuf = bitbuf'' },
        ))
    else (val, record { repcount = 0; lastcomp = val; bitbuf = bitbuf })

-- One hunk of the first pass; `none` where the source of bits is used up.
unfoldable pub type_round : HuffmanDecoder → TypeState → Option (ℕ × TypeState)
unfolding type_code
type_round decoder w =
    if ltb 0 w.repcount
    then some (w.lastcomp, record w { repcount = w.repcount - 1 })
    else if bitstream_overflow w.bitbuf
    then none
    else let (val, bitbuf') = huffman_decode_one decoder w.bitbuf in
      some (type_code decoder w.lastcomp (u8 val) bitbuf')

-- The first pass, over the hunks left.
unfoldable pub type_pass : ℕ → HuffmanDecoder → TypeState → Option (List ℕ × TypeState)
unfolding type_round
type_pass zero decoder w = some ([], w)
type_pass (suc left) decoder w = elim (type_round decoder w) [
  | none ↦ none
  | some round ↦ elim (type_pass left decoder round.1) [
    | none ↦ none
    | some rest ↦ some (round.0 ∷ rest.0, rest.1)
  ]
]

-- The widths and the fields of the header that the second pass uses.
pub record MapFormat : Type 0 where
  pub lengthbits : ℕ
  pub selfbits : ℕ
  pub parentbits : ℕ
  pub hunkbytes : ℕ
  pub unitbytes : ℕ

-- The variables of the second pass.
pub record OffsetState : Type 0 where
  pub curoffset : ℕ
  pub last_self : ℕ
  pub last_parent : ℕ
  pub bitbuf : Bitstream

-- What is written for a hunk.
pub record RawEntry : Type 0 where
  pub compression : ℕ
  pub length : ℕ
  pub offset : ℕ
  pub crc : ℕ

-- The `switch`, for hunk `hunknum` of type `type`; `unitbytes` is not 0.
unfoldable pub offset_round : MapFormat → ℕ → ℕ → OffsetState → RawEntry × OffsetState
offset_round m hunknum type s =
    if leb type compression_type_3
    then (let (length, b1) = bitstream_read s.bitbuf m.lengthbits in
        let (crc, b2) = bitstream_read b1 16 in
        (
          record { compression = type; length = length; offset = s.curoffset; crc = u16 crc },
          record s { curoffset = u64 (s.curoffset + length); bitbuf = b2 },
        ))
    else if type == compression_none
    then (let (crc, b1) = bitstream_read s.bitbuf 16 in
        (
          record { compression = type; length = m.hunkbytes; offset = s.curoffset; crc = u16 crc },
          record s { curoffset = u64 (s.curoffset + m.hunkbytes); bitbuf = b1 },
        ))
    else if type == compression_self
    then (let (offset, b1) = bitstream_read s.bitbuf m.selfbits in
        (
          record { compression = type; length = 0; offset = offset; crc = 0 },
          record s { last_self = offset; bitbuf = b1 },
        ))
    else if type == compression_parent
    then (let (offset, b1) = bitstream_read s.bitbuf m.parentbits in
        (
          record { compression = type; length = 0; offset = offset; crc = 0 },
          record s { last_parent = offset; bitbuf = b1 },
        ))
    else if (type == compression_self_0) || (type == compression_self_1)
    then (let last = if type == compression_self_1 then u32 (s.last_self + 1) else s.last_self in
        (
          record { compression = compression_self; length = 0; offset = last; crc = 0 },
          record s { last_self = last },
        ))
    else if type == compression_parent_self
    then (let offset = u64 (hunknum * m.hunkbytes) / m.unitbytes in
        (
          record { compression = compression_parent; length = 0; offset = offset; crc = 0 },
          record s { last_parent = offset },
        ))
    else if (type == compression_parent_0) || (type == compression_parent_1)
    then (let last =
          if type == compression_parent_1
          then u64 (s.last_parent + m.hunkbytes / m.unitbytes)
          else s.last_parent in
        (
          record { compression = compression_parent; length = 0; offset = last; crc = 0 },
          record s { last_parent = last },
        ))
    else (record { compression = type; length = 0; offset = s.curoffset; crc = 0 }, s)

-- The second pass, from hunk `hunknum` on.
unfoldable pub offset_pass : MapFormat → ℕ → List ℕ → OffsetState → List RawEntry × OffsetState
unfolding offset_round
offset_pass m hunknum [] s = ([], s)
offset_pass m hunknum (type ∷ types) s =
    let (entry, s') = offset_round m hunknum type s in
    let (entries, s'') = offset_pass m (hunknum + 1) types s' in (entry ∷ entries, s'')

-- The 12 bytes of an entry.
unfoldable pub put_entry : RawEntry → List ℕ
put_entry e =
    put_bigendian_uint16
      (put_bigendian_uint48 (put_bigendian_uint24 (e.compression ∷ replicate 11 0) 1 e.length) 4
        e.offset)
      10 e.crc
