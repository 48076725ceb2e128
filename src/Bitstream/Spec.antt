-- ===== src/Bitstream/Spec.antt =====
-- What a bit reader stands for: the bits of a byte array from a position on, highest bit of each
-- byte first, with zeros past the end.
use libchdr.Prelude.{ℕ, zero, suc, ◌+◌, ◌-◌, ◌*◌, ◌/◌, ◌%◌, ◌^◌, ◌<◌, ◌≡◌, refl, ap, ◌∙◌}
use libchdr.Prelude.{arith, List, get_or, ltb, if◌then◌else◌, sym, Bool-cases, inl, inr}
use libchdr.Prelude.Pow.{div-fields}
use native.Mathlib.Nat.{pow-suc, add-zero, add_assoc, zero-div}

module _ (src : List ℕ) (len : ℕ) where
  -- The bit at position `p` of the first `len` bytes.
  abbrev pub bit_at : ℕ → ℕ
  bit_at p = if ltb (p / 8) len then get_or src (p / 8) 0 / 2 ^ (7 - p % 8) % 2 else 0

  -- The number that the `n` bits from position `p` on write.
  unfoldable pub bits_at : ℕ → ℕ → ℕ
  bits_at p zero = 0
  bits_at p (suc n) = bits_at p n * 2 + bit_at (p + n)

  bit_at-lt : (p : ℕ) → bit_at p < 2
  bit_at-lt p = ground arith

  pub bits_at-lt : (p n : ℕ) → bits_at p n < 2 ^ n
  unfolding bits_at
  bits_at-lt p zero = omega arith
  bits_at-lt p (suc n) = omega (arith, bits_at-lt p n, bit_at-lt (p + n), pow-suc 2 n)

  -- The bits of two adjacent stretches.
  pub bits_at-add : (p n m : ℕ) → bits_at p (n + m) ≡ bits_at p n * 2 ^ m + bits_at (p + n) m
  unfolding bits_at
  bits_at-add p n zero = ap (bits_at p) (add-zero n) ∙ omega arith
  bits_at-add p n (suc m) =
      ap (bits_at p) {x = n + suc m} {y = suc (n + m)} (omega arith)
      ∙ omega (
        arith,
        bits_at-add p n m,
        ap (λ (t : ℕ). bits_at p n * t) (pow-suc 2 m),
        ap (λ (t : ℕ). bit_at t) (add_assoc p n m),
      )

  -- The leading bits of a stretch, and the rest of it.
  pub bits_at-div : (p n m : ℕ) → bits_at p (n + m) / 2 ^ m ≡ bits_at p n
  bits_at-div p n m =
      ap (λ (t : ℕ). t / 2 ^ m) (bits_at-add p n m)
      ∙ div-fields (bits_at p n) (2 ^ m) (bits_at (p + n) m) (bits_at-lt (p + n) m)

  -- The eight bits of byte `d`, whose value is `byte`, or 0 past the end.
  module _ (d byte : ℕ) (e : (if ltb d len then get_or src d 0 else 0) ≡ byte) where
    bit_at-digit : (i : ℕ) → i < 8 → bit_at (d * 8 + i) ≡ byte / 2 ^ (7 - i) % 2
    bit_at-digit i h =
        let start : (d * 8 + i) / 8 ≡ d = omega arith in
        let digit : (d * 8 + i) % 8 ≡ i = omega arith in
        rw (start, digit, ← e)
          (elim (Bool-cases (ltb d len)) [
            | inl in_range ↦ rw in_range refl
            | inr past ↦ rw past (ap (λ (t : ℕ). t % 2) (sym (zero-div (2 ^ (7 - i)))))
          ])

    pub bits_at-byte : byte < 256 → bits_at (d * 8) 8 ≡ byte
    unfolding bits_at
    bits_at-byte h = omega (
      arith,
      bit_at-digit 0 (omega arith),
      bit_at-digit 1 (omega arith),
      bit_at-digit 2 (omega arith),
      bit_at-digit 3 (omega arith),
      bit_at-digit 4 (omega arith),
      bit_at-digit 5 (omega arith),
      bit_at-digit 6 (omega arith),
      bit_at-digit 7 (omega arith),
    )
