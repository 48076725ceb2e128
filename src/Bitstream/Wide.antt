-- ===== src/Bitstream/Wide.antt =====
-- Requests of more than 25 bits in src/libchdr_bitstream.c: the loop of `bitstream_peek` stops
-- at 25 held bits, so that not every wide request can be met.
use libchdr.Prelude.{
  ℕ, suc, ◌+◌, ◌-◌, ◌*◌, ◌/◌, ◌^◌, ◌≤◌, ◌<◌, ◌≡◌, ap, ap₂, ◌∙◌, arith, List, sym, subst,
}
use libchdr.Prelude.{◌>>>◌}
use libchdr.Prelude.Pow.{pow-add, pow_pos, div-fields}
use native.Mathlib.Nat.{mul_assoc, add-zero}
use libchdr.Bitstream.{Bitstream, bitstream_read, load}
use libchdr.Bitstream.Spec.{bits_at}
use libchdr.Bitstream.Synced.{IsSynced, load-IsLoaded}
use libchdr.Bitstream.Refine.{IsBytes, max_position, peek_load}

-- The `n` top bits of a word that holds only `c` bits end in zeros.
top_zeros : (x c n : ℕ) → c ≤ n → n ≤ 32 → (x * 2 ^ (32 - c)) >>> (32 - n) ≡ x * 2 ^ (n - c)
top_zeros x c n h hn =
    let width : 2 ^ (32 - c) ≡ 2 ^ (n - c) * 2 ^ (32 - n) =
      ap (λ (t : ℕ). 2 ^ t) {x = 32 - c} {y = n - c + (32 - n)} (omega arith)
      ∙ pow-add (n - c) (32 - n) in
    ap (λ (t : ℕ). x * t / 2 ^ (32 - n)) width
    ∙ ap (λ (t : ℕ). t / 2 ^ (32 - n))
        (sym (mul_assoc x (2 ^ (n - c)) (2 ^ (32 - n))) ∙ sym (add-zero _))
    ∙ div-fields (x * 2 ^ (n - c)) (2 ^ (32 - n)) 0 (pow_pos (32 - n))

-- Where 1 to 7 bits are held, a request of more bits than three further bytes bring returns
-- those bits followed by zeros in place of the array's bits.
pub bitstream_read-wide :
    (src : List ℕ) (len : ℕ) (s : Bitstream) (b p n : ℕ)
    → IsBytes src
    → IsSynced s b p
    → s.read ≡ src
    → s.dlength ≡ len
    → p ≤ max_position
    → 0 < b
    → b < 8
    → b + 24 < n
    → n ≤ 32
    → (bitstream_read s n).0 ≡ bits_at src len p (b + 24) * 2 ^ (n - (b + 24))
unfolding bitstream_read
bitstream_read-wide src len s b p n bytes v from long room some_bits few wide h =
    let fuel = suc ((24 - b) / 8) in
    let l = load-IsLoaded fuel s b p v (rw from bytes) (omega arith) (omega (arith, v.place)) in
    let count : l.count ≡ b + 24 = omega (arith, l.by_bytes, l.enough, l.synced.fits) in
    let full = subst (λ (t : ℕ). IsSynced (load fuel s) t p) count l.synced in
    rw (peek_load src len bytes s b n v.held (omega arith)) (
      ap (λ (t : ℕ). t >>> (32 - n)) full.word
      ∙ top_zeros (bits_at (load fuel s).read (load fuel s).dlength p (b + 24)) (b + 24) n
          (omega arith) h
      ∙ ap₂ (λ (r : List ℕ) (k : ℕ). bits_at r k p (b + 24) * 2 ^ (n - (b + 24)))
          (l.same_read ∙ from) (l.same_length ∙ long))
