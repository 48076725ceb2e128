-- ===== src/Bitstream/Position.antt =====
-- The read position of src/libchdr_bitstream.c: overflow, byte offsets, flush, and the exact
-- positions by which a decoder is stopped and resumed.
use libchdr.Prelude.{ℕ, zero, suc, ◌+◌, ◌-◌, ◌*◌, ◌/◌, ◌%◌, ◌^◌, ◌≤◌, ◌<◌, ◌≡◌, refl, ap, sym}
use libchdr.Prelude.{◌∙◌, arith, List, true, false, u32, ◌↔◌, ◌==◌, Bool-cases, inl, inr, subst}
use libchdr.Prelude.Int.{pos, leb_ℤ, ◌-ℤ◌, pos_part}
use native.Mathlib.Decide.{dec_lt}
use libchdr.Bitstream.{Bitstream, bitstream_read, bitstream_overflow, bitstream_read_offset}
use libchdr.Bitstream.{bitstream_position_bits, bitstream_seek_bits, bitstream_flush, give_back}
use libchdr.Bitstream.{bytes_used}
use libchdr.Bitstream.Spec.{bits_at}
use libchdr.Bitstream.Refine.{IsAt, IsBytes, max_position, bitstream_read-IsAt}

-- The loop gives the whole bytes among the held bits back.
give_back-eq :
    (fuel d b : ℕ) → b / 8 < fuel → b / 8 ≤ d → d < 2 ^ 32 → give_back fuel d (pos b) ≡ d - b / 8
unfolding give_back ◌-ℤ◌
give_back-eq zero d b h hd room = absurd (omega arith)
give_back-eq (suc fuel) d b h hd room = elim (dec_lt b 8) [
  | yes last ↦
      let test : leb_ℤ (pos 8) (pos b) ≡ false = ground arith in rw (test, give_back) (omega arith)
  | no more ↦
      let test : leb_ℤ (pos 8) (pos b) ≡ true = ground arith in
      let less : pos b -ℤ pos 8 ≡ pos (b - 8) = ground arith in
      let back : u32 (d + 2 ^ 32 - 1) ≡ d - 1 = omega arith in
      rw (test, give_back)
        (rw (less, back)
          (give_back-eq fuel (d - 1) (b - 8) (omega arith) (omega arith) (omega arith)
            ∙ omega arith))
]

module _ (src : List ℕ) (len : ℕ) (s : Bitstream) (p : ℕ) (v : IsAt src len s p)
    (room : p ≤ max_position) where
  -- The exact position is the number of bits read.
  pub bitstream_position_bits-eq : bitstream_position_bits s ≡ p
  unfolding bitstream_position_bits
  bitstream_position_bits-eq = rw v.synced.held (omega (arith, v.synced.place, v.synced.fits))

  -- The byte offset is the number of bytes that the bits read reach into.
  pub bitstream_read_offset-eq : bitstream_read_offset s ≡ (p + 7) / 8
  unfolding bitstream_read_offset
  bitstream_read_offset-eq = rw v.synced.held (
      give_back-eq (suc (v.count / 8)) s.doffset v.count (omega arith)
        (omega (arith, v.synced.place)) (omega (arith, v.synced.place, v.synced.fits))
      ∙ omega (arith, v.synced.place, v.synced.fits))

  -- For a reader at bit position `p` of the array, in the sense of `IsAt`, an overflow is reported
  -- exactly when `p` is past the end of the array, which has fewer than 2 ^ 32 bytes.
  pub bitstream_overflow_iff : len < 2 ^ 32 → (bitstream_overflow s ≡ true) ↔ (len * 8 < p)
  unfolding bitstream_overflow
  bitstream_overflow_iff fits =
      let used : bytes_used s.doffset s.bits ≡ (p + 7) / 8 =
        ap (bytes_used s.doffset) v.synced.held ∙ omega (arith, v.synced.place, v.synced.fits) in
      rw (used, v.long) (ground arith)

  -- For a reader at a bit position of the array, in the sense of `IsAt`, a flush skips to the next byte
  -- boundary and returns its byte offset.
  pub bitstream_flush-IsAt :
      ((bitstream_flush s).0 ≡ (p + 7) / 8) × IsAt src len (bitstream_flush s).1 ((p + 7) / 8 * 8)
  unfolding bitstream_flush bitstream_read_offset bits_at
  bitstream_flush-IsAt =
      let offset : give_back (suc (pos_part s.bits / 8)) s.doffset s.bits ≡ (p + 7) / 8 =
        bitstream_read_offset-eq in
      (
        offset,
        record {
          count = 0;
          synced = record {
            held = refl;
            fits = omega arith;
            place = omega (arith, offset);
            word = omega arith;
          };
          from = v.from;
          long = v.long;
        },
      )

-- Seeking puts any reader of the array at the exact position asked for.
pub bitstream_seek_bits-IsAt :
    (src : List ℕ) (len : ℕ)
    → IsBytes src
    → (s : Bitstream) (p : ℕ) → s.read ≡ src
    → s.dlength ≡ len
    → p ≤ max_position
    → IsAt src len (bitstream_seek_bits s p) p
unfolding bitstream_seek_bits bits_at
bitstream_seek_bits-IsAt src len bytes s p from long room =
    let start : Bitstream = record s { doffset = u32 (p / 8); bits = pos 0; buffer = 0 } in
    let at_byte : IsAt src len start (p / 8 * 8) = record {
      count = 0;
      synced = record { held = refl; fits = omega arith; place = omega arith; word = omega arith };
      from = from;
      long = long;
    } in
    elim (Bool-cases (p % 8 == 0)) [
      | inl whole ↦ rw whole (subst (IsAt src len start) (ground arith) at_byte)
      | inr part ↦ rw part (
          subst (IsAt src len (bitstream_read start (p % 8)).1) {x = p / 8 * 8 + p % 8}
            (omega arith)
            (bitstream_read-IsAt src len bytes start (p / 8 * 8) (p % 8) at_byte (omega arith)
              (omega arith)).1)
    ]

-- A reader that is sent to the position of another reader of the same array reads, for a width of at
-- most 25 bits, what that one would read next. Both stand at a bit position of the array, in the sense
-- of `IsAt`, the other one at most at `max_position`.
pub read-seek-position :
    (src : List ℕ) (len : ℕ)
    → IsBytes src
    → (s t : Bitstream) (p q n : ℕ) → IsAt src len s p
    → IsAt src len t q
    → p ≤ max_position
    → n ≤ 25
    → (bitstream_read (bitstream_seek_bits t (bitstream_position_bits s)) n).0
      ≡ (bitstream_read s n).0
read-seek-position src len bytes s t p q n v w room h =
    rw (bitstream_position_bits-eq src len s p v room) (
      (bitstream_read-IsAt src len bytes (bitstream_seek_bits t p) p n
        (bitstream_seek_bits-IsAt src len bytes t p w.from w.long room) h room).0
      ∙ sym (bitstream_read-IsAt src len bytes s p n v h room).0)
