-- ===== src/Bitstream.antt =====
-- The bit reader of src/libchdr_bitstream.c, which keeps up to 32 bits of a byte array in an
-- accumulator. Its functions return the new reader beside their result.
pub mod Spec
pub mod Synced
pub mod Refine
pub mod Position
pub mod Wide
mod Tests
use libchdr.Prelude.{ℕ, zero, suc, ◌+◌, ◌-◌, ◌*◌, ◌/◌, ◌%◌, ◌^◌, bit_or, u32, u64, ◌<<<◌, ◌>>>◌}
use libchdr.Prelude.{List, get_or, Bool, true, false, ltb, leb, ◌==◌, ◌&&◌, if◌then◌else◌}
use libchdr.Prelude.Int.{ℤ, pos, negsuc, ◌-ℤ◌, ◌+ℤ◌, leb_ℤ, ltb_ℤ, pos_part, neg_part}

-- `struct bitstream`; `bits` is a C `int` and can be negative.
pub record Bitstream : Type 0 where
  pub buffer : ℕ
  pub bits : ℤ
  pub read : List ℕ
  pub doffset : ℕ
  pub dlength : ℕ

unfoldable pub create_bitstream : List ℕ → ℕ → Bitstream
create_bitstream src srclength = record {
  buffer = 0;
  bits = pos 0;
  read = src;
  doffset = 0;
  dlength = srclength;
}

-- `doffset - bits / 8` as a `uint32_t`; the division of C rounds towards zero.
abbrev pub bytes_used : ℕ → ℤ → ℕ
bytes_used doffset (pos b) = u32 (doffset + 2 ^ 32 - b / 8)
bytes_used doffset (negsuc n) = u32 (doffset + (n + 1) / 8)

unfoldable pub bitstream_overflow : Bitstream → Bool
bitstream_overflow s = ltb s.dlength (bytes_used s.doffset s.bits)

-- `24 - bits`, in the loop, where `bits <= 24`.
abbrev pub shift_of : ℤ → ℕ
shift_of (pos b) = 24 - b
shift_of (negsuc n) = 25 + n

-- The body of the loop of `bitstream_peek`: one byte more, or nothing past the end.
pub load_byte : Bitstream → Bitstream
unfolding ◌+ℤ◌
load_byte s = record s {
  buffer =
      if ltb s.doffset s.dlength && ltb (shift_of s.bits) 32
      then bit_or s.buffer (u32 (get_or s.read s.doffset 0 <<< shift_of s.bits))
      else s.buffer;
  bits = s.bits +ℤ pos 8;
  doffset = u32 (s.doffset + 1);
}

-- The loop. A round adds 8 to `bits`, so that `(24 - bits) / 8 + 1` rounds pass 24.
pub load : ℕ → Bitstream → Bitstream
load zero s = s
load (suc fuel) s = elim (leb_ℤ s.bits (pos 24)) [ true ↦ load fuel (load_byte s) | false ↦ s ]

unfoldable pub bitstream_peek : Bitstream → ℕ → ℕ × Bitstream
unfolding load load_byte ◌+ℤ◌
bitstream_peek s numbits =
    if numbits == 0
    then (0, s)
    else let s' = if ltb_ℤ s.bits (pos numbits) then load (suc (shift_of s.bits / 8)) s else s in
      (s'.buffer >>> (32 - numbits), s')

unfoldable pub bitstream_remove : Bitstream → ℕ → Bitstream
unfolding ◌-ℤ◌
bitstream_remove s numbits = record s {
  buffer = if leb 32 numbits then 0 else u32 (s.buffer <<< numbits);
  bits = s.bits -ℤ pos numbits;
}

unfoldable pub bitstream_read : Bitstream → ℕ → ℕ × Bitstream
unfolding bitstream_peek bitstream_remove
bitstream_read s numbits =
    let (result, s') = bitstream_peek s numbits in (result, bitstream_remove s' numbits)

-- The loop `while (bits >= 8) { doffset--; bits -= 8; }`, which `bits / 8` rounds finish; only
-- the offset is read after it.
pub give_back : ℕ → ℕ → ℤ → ℕ
unfolding ◌-ℤ◌
give_back zero doffset bits = doffset
give_back (suc fuel) doffset bits = elim (leb_ℤ (pos 8) bits) [
  | true ↦ give_back fuel (u32 (doffset + 2 ^ 32 - 1)) (bits -ℤ pos 8)
  | false ↦ doffset
]

unfoldable pub bitstream_read_offset : Bitstream → ℕ
unfolding give_back
bitstream_read_offset s = give_back (suc (pos_part s.bits / 8)) s.doffset s.bits

unfoldable pub bitstream_position_bits : Bitstream → ℕ
bitstream_position_bits s = u64 (s.doffset * 8 + neg_part s.bits + 2 ^ 64 - pos_part s.bits)

unfoldable pub bitstream_seek_bits : Bitstream → ℕ → Bitstream
bitstream_seek_bits s bitpos =
    let start : Bitstream = record s { doffset = u32 (bitpos / 8); bits = pos 0; buffer = 0 } in
    if bitpos % 8 == 0 then start else (bitstream_read start (bitpos % 8)).1

unfoldable pub bitstream_flush : Bitstream → ℕ × Bitstream
unfolding give_back
bitstream_flush s =
    let d = give_back (suc (pos_part s.bits / 8)) s.doffset s.bits in
    (d, record s { doffset = d; bits = pos 0; buffer = 0 })
