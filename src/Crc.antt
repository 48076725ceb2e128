-- ===== src/Crc.antt =====
-- `crc16_update` and `chd_crc16` of src/libchdr_chd.c.
pub mod Tables
pub mod Polynomial
mod Tests
use libchdr.Prelude.{ℕ, zero, suc, bit_and, bit_xor, u16, ◌<<<◌, ◌>>>◌, List, [], ◌∷◌, get_or}
use libchdr.Crc.Tables.{s_table, s_table1, s_table2, s_table3}

-- The second loop, a byte at a time.
abbrev pub crc16_byte : ℕ → ℕ → ℕ
crc16_byte crc byte = u16 (bit_xor (crc <<< 8) (get_or s_table (bit_xor (crc >>> 8) byte) 0))

-- The first loop, four bytes at a time, then the second over the bytes left.
unfoldable pub crc16_update : ℕ → List ℕ → ℕ
crc16_update crc (b0 ∷ b1 ∷ b2 ∷ b3 ∷ src) =
    let x = u16 (bit_xor (crc >>> 8) b0) in
    let y = u16 (bit_xor (bit_and crc 0xff) b1) in
    crc16_update
      (u16 (
        bit_xor
          (bit_xor (bit_xor (get_or s_table3 x 0) (get_or s_table2 y 0)) (get_or s_table1 b2 0))
          (get_or s_table b3 0)))
      src
crc16_update crc (b0 ∷ b1 ∷ b2 ∷ []) = crc16_byte (crc16_byte (crc16_byte crc b0) b1) b2
crc16_update crc (b0 ∷ b1 ∷ []) = crc16_byte (crc16_byte crc b0) b1
crc16_update crc (b0 ∷ []) = crc16_byte crc b0
crc16_update crc [] = crc

unfoldable pub chd_crc16 : List ℕ → ℕ
unfolding crc16_update
chd_crc16 bytes = crc16_update 0xffff bytes
