-- ===== src/Bitstream/Synced.antt =====
-- The invariant of a reader that has not been over-consumed: its accumulator holds the next bits
-- of the array, at the top of the 32-bit word. Each step of bitstream.c keeps it.
use libchdr.Prelude.{ℕ, zero, suc, ◌+◌, ◌-◌, ◌*◌, ◌%◌, ◌^◌, ◌≤◌, ◌<◌, ◌≡◌, refl, ap, sym}
use libchdr.Prelude.{◌∙◌, arith, get_or, ltb, if◌then◌else◌, Bool-cases, inl, inr}
use libchdr.Prelude.{bit_or, u32, ◌<<<◌, true, false, lt→ltb}
use native.Mathlib.Decide.{dec_lt}
use libchdr.Prelude.Int.{pos, leb_ℤ, ◌+ℤ◌}
use libchdr.Prelude.Bits.{bit_or-fields}
use libchdr.Prelude.Pow.{pow-add, pow_mono, pow_pos}
use native.Mathlib.Nat.{mod-eq_of_lt, mul-lt-mul_of_pos_right, mul_assoc}
use libchdr.Bitstream.{Bitstream, load_byte, load}
use libchdr.Bitstream.Spec.{bits_at, bits_at-add, bits_at-byte}

-- `b` bits are held, the first of them at position `p`.
pub record IsSynced (s : Bitstream) (b p : ℕ) : Type 0 where
  pub held : s.bits ≡ pos b
  pub fits : b ≤ 32
  pub place : p + b ≡ s.doffset * 8
  pub word : s.buffer ≡ bits_at s.read s.dlength p b * 2 ^ (32 - b)

-- The array holds bytes.
abbrev pub IsInput : Bitstream → Type 0
IsInput s = (j : ℕ) → get_or s.read j 0 < 256

-- Widening the held field by a byte moves it up by the byte's eight places.
widen : (x b : ℕ) → b ≤ 24 → x * 2 ^ (32 - b) ≡ x * 256 * 2 ^ (32 - (b + 8))
widen x b h =
    ap (λ (t : ℕ). x * t)
      (ap (λ (t : ℕ). 2 ^ t) {x = 32 - b} {y = 8 + (32 - (b + 8))} (omega arith)
        ∙ pow-add 8 (32 - (b + 8)))
    ∙ sym (mul_assoc x 256 (2 ^ (32 - (b + 8))))

-- A byte joins the accumulator below the `b` bits that it holds.
push_byte :
    (x byte b : ℕ)
    → b ≤ 24
    → byte < 256
    → bit_or (x * 2 ^ (32 - b)) (u32 (byte <<< (24 - b))) ≡ (x * 256 + byte) * 2 ^ (32 - (b + 8))
push_byte x byte b h hb =
    let low : byte * 2 ^ (24 - b) < 256 * 2 ^ (24 - b) =
      mul-lt-mul_of_pos_right hb (pow_pos (24 - b)) in
    let width : 2 ^ (32 - b) ≡ 256 * 2 ^ (24 - b) =
      ap (λ (t : ℕ). 2 ^ t) {x = 32 - b} {y = 8 + (24 - b)} (omega arith) ∙ pow-add 8 (24 - b) in
    let cast : u32 (byte <<< (24 - b)) ≡ byte * 2 ^ (24 - b) =
      mod-eq_of_lt (omega (arith, pow_mono (32 - b) 32 (omega arith))) in
    let same : 2 ^ (24 - b) ≡ 2 ^ (32 - (b + 8)) =
      ap (λ (t : ℕ). 2 ^ t) {x = 24 - b} {y = 32 - (b + 8)} (omega arith) in
    rw cast (
      bit_or-fields (32 - b) x (byte * 2 ^ (24 - b)) (omega arith)
      ∙ omega (arith, widen x b h, ap (λ (t : ℕ). byte * t) same))

-- One round of the loop of `bitstream_peek`.
module _ (s : Bitstream) (b p : ℕ) (v : IsSynced s b p) (bytes : IsInput s) (h : b ≤ 24) where
  abbrev byte : ℕ
  byte = if ltb s.doffset s.dlength then get_or s.read s.doffset 0 else 0

  byte-lt : byte < 256
  byte-lt = ground (arith, bytes s.doffset)

  more_bits : bits_at s.read s.dlength p (b + 8) ≡ bits_at s.read s.dlength p b * 256 + byte
  more_bits =
      bits_at-add s.read s.dlength p b 8
      ∙ ap (λ (t : ℕ). bits_at s.read s.dlength p b * 256 + t)
          (ap (λ (t : ℕ). bits_at s.read s.dlength t 8) v.place
            ∙ bits_at-byte s.read s.dlength s.doffset byte refl byte-lt)

  load_word : (load_byte s).buffer ≡ bits_at s.read s.dlength p (b + 8) * 2 ^ (32 - (b + 8))
  unfolding load_byte
  load_word =
      let x = bits_at s.read s.dlength p b in
      elim (Bool-cases (ltb s.doffset s.dlength)) [
        | inl more ↦
            rw (more_bits, v.held, v.word, more, lt→ltb (24 - b) 32 (omega arith))
              (push_byte x (get_or s.read s.doffset 0) b h (bytes s.doffset))
        | inr over ↦ rw (more_bits, v.held, v.word, over) (widen x b h ∙ omega arith)
      ]

  load_byte-IsSynced : s.doffset + 1 < 2 ^ 32 → IsSynced (load_byte s) (b + 8) p
  unfolding load_byte ◌+ℤ◌
  load_byte-IsSynced room = record {
    held = rw v.held (ground arith);
    fits = omega arith;
    place = omega (arith, v.place);
    word = load_word;
  }

-- What the loop leaves: a reader of the same bytes that holds at least 25 bits,
-- whole bytes more than the `b` bits before.
pub record IsLoaded (s s' : Bitstream) (b p : ℕ) : Type 0 where
  pub count : ℕ
  pub synced : IsSynced s' count p
  pub enough : 25 ≤ count
  pub by_bytes : count % 8 ≡ b % 8
  pub same_read : s'.read ≡ s.read
  pub same_length : s'.dlength ≡ s.dlength

load-more :
    (fuel : ℕ) (s : Bitstream) (b : ℕ)
    → s.bits ≡ pos b
    → b ≤ 24
    → load (suc fuel) s ≡ load fuel (load_byte s)
unfolding load
load-more fuel s b e h =
    let test : leb_ℤ s.bits (pos 24) ≡ true = rw e (ground arith) in rw (test, load) refl

load-full : (fuel : ℕ) (s : Bitstream) (b : ℕ) → s.bits ≡ pos b → 24 < b → load (suc fuel) s ≡ s
unfolding load
load-full fuel s b e h =
    let test : leb_ℤ s.bits (pos 24) ≡ false = rw e (ground arith) in rw (test, load) refl

pub load-IsLoaded :
    (fuel : ℕ) (s : Bitstream) (b p : ℕ)
    → IsSynced s b p
    → IsInput s
    → 24 < b + 8 * fuel
    → s.doffset + fuel < 2 ^ 32
    → IsLoaded s (load fuel s) b p
unfolding load load_byte
load-IsLoaded zero s b p v bytes h room = record {
  count = b;
  synced = v;
  enough = omega arith;
  by_bytes = refl;
  same_read = refl;
  same_length = refl;
}
load-IsLoaded (suc fuel) s b p v bytes h room = elim (dec_lt 24 b) [
  | yes full ↦ rw (load-full fuel s b v.held full) (record {
    count = b;
    synced = v;
    enough = full;
    by_bytes = refl;
    same_read = refl;
    same_length = refl;
  })
  | no more ↦
      let below : b ≤ 24 = omega arith in
      let v' = load_byte-IsSynced s b p v bytes below (omega arith) in
      let rest = load-IsLoaded fuel (load_byte s) (b + 8) p v' bytes (omega arith) (omega arith) in
      rw (load-more fuel s b v.held below) (record {
        count = rest.count;
        synced = rest.synced;
        enough = rest.enough;
        by_bytes = omega (arith, rest.by_bytes);
        same_read = rest.same_read;
        same_length = rest.same_length;
      })
]
