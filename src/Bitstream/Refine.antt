-- ===== src/Bitstream/Refine.antt =====
-- The operations of bitstream.c against the bits of the array: peek, remove and read.
use libchdr.Prelude.{ℕ, zero, suc, ◌+◌, ◌-◌, ◌*◌, ◌/◌, ◌^◌, ◌≤◌, ◌<◌, ◌≡◌, refl, ap, sym}
use libchdr.Prelude.{◌∙◌, arith, List, get_or, leb, u32, ◌<<<◌, ◌>>>◌}
use libchdr.Prelude.{Bool-cases, inl, inr, ap₂, subst, ◌==◌, true, false}
use libchdr.Prelude.Int.{pos, ltb_ℤ, ◌-ℤ◌}
use libchdr.Prelude.Pow.{pow-add, pow-split, pow_pos, mod-fields}
use native.Mathlib.Nat.{mul_assoc, zero-add, mul-div-mul_right, mul-lt-mul_of_pos_right}
use native.Mathlib.Decide.{dec_lt}
use libchdr.Bitstream.{
  Bitstream, create_bitstream, load, shift_of, bitstream_peek, bitstream_remove,
}
use libchdr.Bitstream.{bitstream_read}
use libchdr.Bitstream.Spec.{bits_at, bits_at-lt, bits_at-add, bits_at-div}
use libchdr.Bitstream.Synced.{IsSynced, load-IsLoaded}

-- The reader stands at position `p` of the first `len` bytes of `src`.
pub record IsAt (src : List ℕ) (len : ℕ) (s : Bitstream) (p : ℕ) : Type 0 where
  pub count : ℕ
  pub synced : IsSynced s count p
  pub from : s.read ≡ src
  pub long : s.dlength ≡ len

abbrev pub IsBytes : List ℕ → Type 0
IsBytes src = (j : ℕ) → get_or src j 0 < 256

-- Positions at which the 32-bit byte offset does not wrap.
abbrev pub max_position : ℕ
max_position = 2 ^ 35 - 64

-- The top `n` of `n + m` bits that stand at the top of the word.
top_bits : (x n m : ℕ) → n + m ≤ 32 → x * 2 ^ (32 - (n + m)) / 2 ^ (32 - n) ≡ x / 2 ^ m
top_bits x n m h =
    let width : 2 ^ (32 - n) ≡ 2 ^ m * 2 ^ (32 - (n + m)) =
      ap (λ (t : ℕ). 2 ^ t) {x = 32 - n} {y = m + (32 - (n + m))} (omega arith)
      ∙ pow-add m (32 - (n + m)) in
    ap (λ (t : ℕ). x * 2 ^ (32 - (n + m)) / t) width
    ∙ mul-div-mul_right x (2 ^ m) (pow_pos (32 - (n + m)))

-- Shifting `n` of `n + m` bits out of the word leaves the `m` lower ones at its top.
shifted_out :
    (x y n m : ℕ)
    → n + m ≤ 32
    → y < 2 ^ m
    → u32 (((x * 2 ^ m + y) * 2 ^ (32 - (n + m))) <<< n) ≡ y * 2 ^ (32 - m)
shifted_out x y n m h hy =
    let place : 2 ^ (32 - (n + m)) * 2 ^ n ≡ 2 ^ (32 - m) =
      sym (pow-add (32 - (n + m)) n)
      ∙ ap (λ (t : ℕ). 2 ^ t) {x = 32 - (n + m) + n} {y = 32 - m} (omega arith) in
    let whole : 2 ^ m * 2 ^ (32 - m) ≡ 2 ^ 32 = sym (pow-split m 32 (omega arith)) in
    let low : y * 2 ^ (32 - m) < 2 ^ m * 2 ^ (32 - m) =
      mul-lt-mul_of_pos_right hy (pow_pos (32 - m)) in
    ap u32 (
      mul_assoc (x * 2 ^ m + y) (2 ^ (32 - (n + m))) (2 ^ n)
      ∙ ap (λ (t : ℕ). (x * 2 ^ m + y) * t) place
      ∙ omega (arith, ap (λ (t : ℕ). x * t) whole))
    ∙ mod-fields x (2 ^ 32) (y * 2 ^ (32 - m)) (omega (arith, whole))

-- The steps of a read of `n` bits, where `n + m` are held.
module _ (s : Bitstream) (p n m : ℕ) (v : IsSynced s (n + m) p) where
  peek_held : s.buffer >>> (32 - n) ≡ bits_at s.read s.dlength p n
  peek_held =
      ap (λ (t : ℕ). t / 2 ^ (32 - n)) v.word
      ∙ top_bits (bits_at s.read s.dlength p (n + m)) n m v.fits
      ∙ bits_at-div s.read s.dlength p n m

  remove_held : IsSynced (bitstream_remove s n) m (p + n)
  unfolding bitstream_remove ◌-ℤ◌ bits_at
  remove_held = record {
    held = rw v.held (ground arith);
    fits = omega (arith, v.fits);
    place = omega (arith, v.place);
    word = elim (Bool-cases (leb 32 n)) [
      | inl all ↦
          let none_left : m ≡ 0 = ground (arith, v.fits) in rw (all, none_left) (omega arith)
      | inr some_left ↦
          rw (some_left, v.word, bits_at-add s.read s.dlength p n m)
            (shifted_out (bits_at s.read s.dlength p n) (bits_at s.read s.dlength (p + n) m) n m
              v.fits (bits_at-lt s.read s.dlength (p + n) m))
    ];
  }

-- Peeking at `n` bits returns the next `n` bits and leaves at least as many held.
record IsPeeked (src : List ℕ) (len : ℕ) (out : ℕ × Bitstream) (p n : ℕ) : Type 0 where
  pub value : out.0 ≡ bits_at src len p n
  pub rest : ℕ
  pub synced : IsSynced out.1 (n + rest) p
  pub from : out.1.read ≡ src
  pub long : out.1.dlength ≡ len

module _ (src : List ℕ) (len : ℕ) (bytes : IsBytes src) where
  held_peek :
      (s : Bitstream) (p n m : ℕ)
      → IsSynced s (n + m) p
      → s.read ≡ src
      → s.dlength ≡ len
      → IsPeeked src len (s.buffer >>> (32 - n), s) p n
  held_peek s p n m v from long = record {
    value = peek_held s p n m v ∙ ap₂ (λ (r : List ℕ) (l : ℕ). bits_at r l p n) from long;
    rest = m;
    synced = v;
    from = from;
    long = long;
  }

  peek_enough :
      (s : Bitstream) (b n : ℕ)
      → s.bits ≡ pos b
      → 0 < n
      → n ≤ b
      → bitstream_peek s n ≡ (s.buffer >>> (32 - n), s)
  unfolding bitstream_peek
  peek_enough s b n e some_bits h =
      let test : ltb_ℤ s.bits (pos n) ≡ false = rw e (ground arith) in
      let nonzero : (n == 0) ≡ false = ground arith in rw (nonzero, test) refl

  pub peek_load :
      (s : Bitstream) (b n : ℕ)
      → s.bits ≡ pos b
      → b < n
      → bitstream_peek s n ≡ (let s' = load (suc ((24 - b) / 8)) s in (s'.buffer >>> (32 - n), s'))
  unfolding bitstream_peek
  peek_load s b n e h =
      let test : ltb_ℤ s.bits (pos n) ≡ true = rw e (ground arith) in
      let nonzero : (n == 0) ≡ false = ground arith in
      let same : shift_of s.bits ≡ 24 - b = ap shift_of e in rw (nonzero, test, same) refl

  -- With `n` of the bits that are held named, for the lemmas above.
  split_held : (s : Bitstream) (b p n : ℕ) → IsSynced s b p → n ≤ b → IsSynced s (n + (b - n)) p
  split_held s b p n v h =
      subst (λ (t : ℕ). IsSynced s t p) {x = b} {y = n + (b - n)} (omega arith) v

  -- Up to 25 bits can be asked for, whatever is held: `bitstream_peek` returns the next `n` bits
  -- of the array, and the reader still stands where it stood.
  bitstream_peek-IsPeeked :
      (s : Bitstream) (p n : ℕ)
      → IsAt src len s p
      → n ≤ 25
      → p ≤ max_position
      → IsPeeked src len (bitstream_peek s n) p n
  bitstream_peek-IsPeeked s p zero v h room = record {
    value = unfold bitstream_peek bits_at in refl;
    rest = v.count;
    synced =
        unfold bitstream_peek in
        subst (λ (t : ℕ). IsSynced s t p) (sym (zero-add v.count)) v.synced;
    from = unfold bitstream_peek in v.from;
    long = unfold bitstream_peek in v.long;
  }
  bitstream_peek-IsPeeked s p (suc n) v h room = elim (dec_lt v.count (suc n)) [
    | no enough ↦ rw (peek_enough s v.count (suc n) v.synced.held (omega arith) (omega arith)) (
        held_peek s p (suc n) (v.count - suc n)
          (split_held s v.count p (suc n) v.synced (omega arith)) v.from v.long)
    | yes short ↦
        let fuel = suc ((24 - v.count) / 8) in
        let l =
          load-IsLoaded fuel s v.count p v.synced (rw v.from bytes) (omega arith)
            (omega (arith, v.synced.place)) in
        rw (peek_load s v.count (suc n) v.synced.held short) (
          held_peek (load fuel s) p (suc n) (l.count - suc n)
            (split_held (load fuel s) l.count p (suc n) l.synced (omega (arith, l.enough)))
            (l.same_read ∙ v.from) (l.same_length ∙ v.long))
  ]

  -- After a peek at `n` bits, `l` of them can be removed.
  pub peek_remove-IsAt :
      (s : Bitstream) (p n l : ℕ)
      → IsAt src len s p
      → n ≤ 25
      → p ≤ max_position
      → l ≤ n
      → ((bitstream_peek s n).0 ≡ bits_at src len p n)
        × IsAt src len (bitstream_remove (bitstream_peek s n).1 l) (p + l)
  peek_remove-IsAt s p n l v h room below =
      let peeked = bitstream_peek-IsPeeked s p n v h room in
      let held =
        subst (λ (t : ℕ). IsSynced (bitstream_peek s n).1 t p) {x = n + peeked.rest}
          {y = l + (n - l + peeked.rest)} (omega arith) peeked.synced in
      (
        peeked.value,
        record {
          count = n - l + peeked.rest;
          synced = remove_held (bitstream_peek s n).1 p l (n - l + peeked.rest) held;
          from = unfold bitstream_remove in peeked.from;
          long = unfold bitstream_remove in peeked.long;
        },
      )

  -- A reader at position `p` that is asked for at most 25 bits returns the next bits of the
  -- array, with zeros past its end, and then stands behind them. Positions are those at which
  -- the 32-bit byte offset does not wrap.
  pub bitstream_read-IsAt :
      (s : Bitstream) (p n : ℕ)
      → IsAt src len s p
      → n ≤ 25
      → p ≤ max_position
      → ((bitstream_read s n).0 ≡ bits_at src len p n) × IsAt src len (bitstream_read s n).1 (p + n)
  bitstream_read-IsAt s p n v h room =
      unfold bitstream_read in peek_remove-IsAt s p n n v h room (omega arith)

  -- A fresh reader stands at the start of its array.
  pub create_bitstream-IsAt : IsAt src len (create_bitstream src len) 0
  unfolding create_bitstream bits_at
  create_bitstream-IsAt = record {
    count = 0;
    synced = record { held = refl; fits = omega arith; place = refl; word = omega arith };
    from = refl;
    long = refl;
  }
