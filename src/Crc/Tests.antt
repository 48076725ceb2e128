-- ===== src/Crc/Tests.antt =====
-- Runs of the checksum.
use libchdr.Prelude.{◌≡◌, refl, arith, [], ◌∷◌, get_or}
use libchdr.Crc.{crc16_update, chd_crc16}
use libchdr.Crc.Tables.{s_table, s_table1, s_table2, s_table3}
use libchdr.Crc.Polynomial.{shift_bits, s_table-remainder}

-- The check value of this checksum: that of the text "123456789" is 0x29b1.
check_value : chd_crc16 (0x31 ∷ 0x32 ∷ 0x33 ∷ 0x34 ∷ 0x35 ∷ 0x36 ∷ 0x37 ∷ 0x38 ∷ 0x39 ∷ []) ≡ 0x29b1
unfolding chd_crc16 crc16_update
check_value = refl

s_table-remainder_example :
    (get_or s_table 3 0 ≡ shift_bits 8 768)
    × (get_or s_table1 3 0 ≡ shift_bits 16 768)
    × (get_or s_table2 3 0 ≡ shift_bits 24 768)
    × (get_or s_table3 3 0 ≡ shift_bits 32 768)
s_table-remainder_example = s_table-remainder 3 (omega arith)
