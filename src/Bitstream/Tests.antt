-- ===== src/Bitstream/Tests.antt =====
-- Runs of the bit reader of src/libchdr_bitstream.c, and its theorems at concrete inputs.
use libchdr.Prelude.{ℕ, suc, zero, ◌*◌, ◌^◌, ◌<◌, ◌≡◌, ◌↔◌, refl, arith, List, [], ◌∷◌, true}
use libchdr.Prelude.Int.{pos}
use libchdr.Bitstream.{Bitstream, create_bitstream, bitstream_read, bitstream_overflow}
use libchdr.Bitstream.{bitstream_read_offset, bitstream_position_bits, bitstream_seek_bits}
use libchdr.Bitstream.{bitstream_flush}
use libchdr.Bitstream.Spec.{bits_at}
use libchdr.Bitstream.Synced.{IsSynced}
use libchdr.Bitstream.Refine.{IsAt, IsBytes, bitstream_read-IsAt, create_bitstream-IsAt}
use libchdr.Bitstream.Position.{bitstream_overflow_iff, bitstream_flush-IsAt}
use libchdr.Bitstream.Position.{bitstream_seek_bits-IsAt, read-seek-position}
use libchdr.Bitstream.Wide.{bitstream_read-wide}

abbrev bytes : List ℕ
bytes = 0xab ∷ 0xcd ∷ 0xef ∷ 0x12 ∷ 0x34 ∷ []

bytes-IsBytes : IsBytes bytes
bytes-IsBytes zero = omega arith
bytes-IsBytes (suc zero) = omega arith
bytes-IsBytes (suc (suc zero)) = omega arith
bytes-IsBytes (suc (suc (suc zero))) = omega arith
bytes-IsBytes (suc (suc (suc (suc zero)))) = omega arith
bytes-IsBytes (suc (suc (suc (suc (suc j))))) = omega arith

abbrev fresh : Bitstream
fresh = create_bitstream bytes 5

fresh-IsAt : IsAt bytes 5 fresh 0
fresh-IsAt = create_bitstream-IsAt bytes 5 bytes-IsBytes

-- Twelve bits further.
abbrev later : Bitstream
later = (bitstream_read fresh 12).1

later-IsAt : IsAt bytes 5 later 12
later-IsAt =
    (bitstream_read-IsAt bytes 5 bytes-IsBytes fresh 0 12 fresh-IsAt (omega arith) (omega arith)).1

reads_in_turn :
    ((bitstream_read fresh 12).0 ≡ 0xabc)
    × ((bitstream_read later 8).0 ≡ 0xde)
    × (bitstream_position_bits later ≡ 12)
    × (bitstream_read_offset later ≡ 2)
unfolding bitstream_read bitstream_position_bits bitstream_read_offset create_bitstream
reads_in_turn = (refl, refl, refl, refl)

bitstream_read-IsAt_example :
    ((bitstream_read later 8).0 ≡ bits_at bytes 5 12 8) × IsAt bytes 5 (bitstream_read later 8).1 20
bitstream_read-IsAt_example =
    bitstream_read-IsAt bytes 5 bytes-IsBytes later 12 8 later-IsAt (omega arith) (omega arith)

bitstream_overflow_iff_example : (bitstream_overflow later ≡ true) ↔ (40 < 12)
bitstream_overflow_iff_example =
    bitstream_overflow_iff bytes 5 later 12 later-IsAt (omega arith) (omega arith)

bitstream_flush-IsAt_example :
    ((bitstream_flush later).0 ≡ 2) × IsAt bytes 5 (bitstream_flush later).1 16
bitstream_flush-IsAt_example = bitstream_flush-IsAt bytes 5 later 12 later-IsAt (omega arith)

bitstream_seek_bits-IsAt_example : IsAt bytes 5 (bitstream_seek_bits later 7) 7
bitstream_seek_bits-IsAt_example =
    bitstream_seek_bits-IsAt bytes 5 bytes-IsBytes later 7 later-IsAt.from later-IsAt.long
      (omega arith)

read-seek-position_example :
    (bitstream_read (bitstream_seek_bits fresh (bitstream_position_bits later)) 8).0
    ≡ (bitstream_read later 8).0
read-seek-position_example =
    read-seek-position bytes 5 bytes-IsBytes later fresh 12 0 8 later-IsAt fresh-IsAt (omega arith)
      (omega arith)

-- One bit is held after 31 were read from four bytes; 32 more bits cannot be had.
abbrev one_left : Bitstream
one_left = record { buffer = 0; bits = pos 1; read = bytes; doffset = 4; dlength = 5 }

one_left-IsSynced : IsSynced one_left 1 31
one_left-IsSynced = record {
  held = refl;
  fits = omega arith;
  place = refl;
  word = unfold bits_at in refl;
}

bitstream_read-wide_example : (bitstream_read one_left 32).0 ≡ bits_at bytes 5 31 25 * 2 ^ 7
bitstream_read-wide_example =
    bitstream_read-wide bytes 5 one_left 1 31 32 bytes-IsBytes one_left-IsSynced refl refl
      (omega arith) (omega arith) (omega arith) (omega arith) (omega arith)
