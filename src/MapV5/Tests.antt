-- ===== src/MapV5/Tests.antt =====
-- Runs of the two passes of the map of version 5.
use libchdr.Prelude.{ℕ, ◌+◌, ◌≡◌, refl, arith, List, [], ◌∷◌, get_or, take, u64, none, some}
use libchdr.Prelude.Int.{pos}
use libchdr.Bitstream.{
  create_bitstream, bitstream_read, bitstream_overflow, bitstream_peek, bitstream_remove,
}
use libchdr.Bytes.{put_bigendian_uint16, put_bigendian_uint24, put_bigendian_uint48}
use libchdr.Bytes.{get_bigendian_uint16, get_bigendian_uint24, get_bigendian_uint48}
use libchdr.MapV5.Entries.{put_entry-fields}
use libchdr.Prelude.{◌↔◌, ◌≤◌, ◌*◌}
use libchdr.MapV5.Size.{max_map_size, map_size_v5, map_size_v5-some}
use libchdr.Huffman.{HuffmanDecoder, huffman_decode_one}
use libchdr.MapV5.{TypeState, MapFormat, OffsetState, RawEntry, type_code, type_round, type_pass}
use libchdr.MapV5.{offset_round, offset_pass, put_entry}
use libchdr.MapV5.Types.{IsExpansion, type_pass-IsExpansion}
use libchdr.MapV5.Offsets.{total_size, offset_pass-contiguous}

-- Codes of two bits for the types 0 and 3 and for the two repetitions.
abbrev decoder : HuffmanDecoder
decoder = record {
  numcodes = 16;
  maxbits = 2;
  prevdata = 0;
  rleremaining = 0;
  lookup = 2 ∷ 98 ∷ 226 ∷ 258 ∷ [];
  huffnode = [];
  datahisto = none;
}

-- Type 3, a repetition of it, and type 0.
abbrev begin : TypeState
begin = record { repcount = 0; lastcomp = 0; bitbuf = create_bitstream (0x60 ∷ []) 1 }

abbrev finished : TypeState
finished = record {
  repcount = 0;
  lastcomp = 0;
  bitbuf = record { buffer = 0; bits = pos 24; read = 0x60 ∷ []; doffset = 4; dlength = 1 };
}

five_types : type_pass 5 decoder begin ≡ some (3 ∷ 3 ∷ 3 ∷ 3 ∷ 0 ∷ [], finished)
unfolding type_pass type_round type_code huffman_decode_one bitstream_overflow create_bitstream
    bitstream_peek bitstream_remove
five_types = refl

type_pass-IsExpansion_example : IsExpansion decoder 5 begin (3 ∷ 3 ∷ 3 ∷ 3 ∷ 0 ∷ [], finished)
type_pass-IsExpansion_example =
    type_pass-IsExpansion decoder 5 begin finished (3 ∷ 3 ∷ 3 ∷ 3 ∷ 0 ∷ []) five_types

abbrev format : MapFormat
format = record { lengthbits = 8; selfbits = 8; parentbits = 8; hunkbytes = 64; unitbytes = 16 }

abbrev offsets : List ℕ
offsets = 0x10 ∷ 0 ∷ 1 ∷ 0 ∷ 2 ∷ 0x20 ∷ 0 ∷ 3 ∷ []

abbrev at_offsets : OffsetState
at_offsets = record {
  curoffset = 1000;
  last_self = 0;
  last_parent = 0;
  bitbuf = create_bitstream offsets 8;
}

-- A compressed hunk of 16 bytes, a stored one, a copy of a hunk, and a compressed one.
abbrev four_types : List ℕ
four_types = 0 ∷ 4 ∷ 9 ∷ 1 ∷ []

abbrev fourth : RawEntry
fourth = record { compression = 1; length = 32; offset = 1080; crc = 3 }

offset_pass-contiguous_example :
    fourth.offset ≡ u64 (1000 + total_size (take 3 (offset_pass format 0 four_types at_offsets).0))
unfolding offset_pass offset_round bitstream_read create_bitstream
offset_pass-contiguous_example =
    offset_pass-contiguous format four_types 0 at_offsets 3 fourth (omega arith) refl (omega arith)

fourth_bytes : put_entry fourth ≡ 1 ∷ 0 ∷ 0 ∷ 32 ∷ 0 ∷ 0 ∷ 0 ∷ 0 ∷ 4 ∷ 0x38 ∷ 0 ∷ 3 ∷ []
unfolding put_entry put_bigendian_uint16 put_bigendian_uint24 put_bigendian_uint48
fourth_bytes = refl

put_entry-fields_example :
    (get_or (put_entry fourth) 0 0 ≡ 1)
    × (get_bigendian_uint24 (put_entry fourth) 1 ≡ 32)
    × (get_bigendian_uint48 (put_entry fourth) 4 ≡ 1080)
    × (get_bigendian_uint16 (put_entry fourth) 10 ≡ 3)
put_entry-fields_example = put_entry-fields fourth (omega arith)

map_size_v5-some_example :
    (map_size_v5 32 1000 12 ≡ some 12000) ↔ ((1000 * 12 ≤ max_map_size) × (12000 ≡ 1000 * 12))
map_size_v5-some_example =
    map_size_v5-some 32 1000 12 12000 (omega arith) (omega arith) (omega arith) (omega arith)
