-- ===== src/Crc/Polynomial.antt =====
-- The tables against the polynomial x^16 + x^12 + x^5 + 1.
use libchdr.Prelude.{
  ℕ, zero, suc, ◌*◌, ◌+◌, ◌<◌, ◌≡◌, refl, subst, arith, bit_xor, u16, List, [], ◌∷◌, length,
}
use libchdr.Prelude.{get_or, ltb, ◌==◌, if◌then◌else◌, Bool, true, ◌&&◌}
use libchdr.Crc.Tables.{s_table, s_table1, s_table2, s_table3}

-- One zero bit behind a 16-bit remainder.
abbrev pub shift_bit : ℕ → ℕ
shift_bit r = if ltb r 0x8000 then r * 2 else bit_xor (u16 (r * 2)) 0x1021

abbrev pub shift_bits : ℕ → ℕ → ℕ
shift_bits zero r = r
shift_bits (suc n) r = shift_bits n (shift_bit r)

-- Every entry of the table, from index `i` on, is the remainder of its index behind `n` zero bits.
abbrev agrees : List ℕ → ℕ → ℕ → Bool
agrees [] n i = true
agrees (x ∷ xs) n i = (x == shift_bits n (i * 256)) && agrees xs n (i + 1)

agrees-get_or :
    (xs : List ℕ) (n i j : ℕ)
    → agrees xs n i ≡ true
    → j < length xs
    → get_or xs j 0 ≡ shift_bits n ((i + j) * 256)
agrees-get_or [] n i j h below = absurd (omega arith)
agrees-get_or (x ∷ xs) n i zero h below =
    let same : i + 0 ≡ i = omega arith in rw same (ground arith)
agrees-get_or (x ∷ xs) n i (suc j) h below =
    let same : i + suc j ≡ i + 1 + j = omega arith in
    rw same (agrees-get_or xs n (i + 1) j (ground arith) (omega arith))

-- The four tables hold, for each byte, the remainder by the polynomial of this byte with 2, 3, 4 and 5
-- zero bytes after it: `s_table1`, `s_table2` and `s_table3` are `s_table` advanced by 1, 2 and 3 bytes.
pub s_table-remainder :
    (i : ℕ)
    → i < 256
    → (get_or s_table i 0 ≡ shift_bits 8 (i * 256))
      × (get_or s_table1 i 0 ≡ shift_bits 16 (i * 256))
      × (get_or s_table2 i 0 ≡ shift_bits 24 (i * 256))
      × (get_or s_table3 i 0 ≡ shift_bits 32 (i * 256))
s_table-remainder i h =
    let none_before : 0 + i ≡ i = omega arith in
    let from : (n : ℕ) (xs : List ℕ)
        → agrees xs n 0 ≡ true
        → i < length xs
        → get_or xs i 0 ≡ shift_bits n (i * 256) =
      λ n xs all below.
        subst (λ k. get_or xs i 0 ≡ shift_bits n (k * 256)) none_before
          (agrees-get_or xs n 0 i all below) in
    (
      from 8 s_table refl h,
      from 16 s_table1 refl h,
      from 24 s_table2 refl h,
      from 32 s_table3 refl h,
    )
