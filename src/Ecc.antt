-- ===== src/Ecc.antt =====
-- The error correction codes of a raw CD sector, in src/libchdr_cdrom.c: the computation of a pair of
-- parity bytes, the check of a sector and the erasure of its codes. A sector is its list of bytes.
pub mod Tables
pub mod POffsets
pub mod QOffsets
pub mod Layout
mod Tests
use libchdr.Prelude.{ℕ, zero, suc, ◌+◌, ◌*◌, bit_xor, u8, ◌<<<◌, ◌>>>◌, List, [], ◌∷◌, get_or, set}
use libchdr.Prelude.{Bool, true, false, ltb, ◌==◌, ◌&&◌, not, if◌then◌else◌}
use libchdr.Ecc.Tables.{ecclow, ecchigh}
use libchdr.Ecc.POffsets.{poffsets}
use libchdr.Ecc.QOffsets.{qoffsets}

-- `SYNC_OFFSET + SYNC_NUM_BYTES`, where the data begins
abbrev pub data_offset : ℕ
data_offset = 12

-- `MODE_OFFSET`
abbrev pub mode_offset : ℕ
mode_offset = 0x00f

-- `ECC_P_OFFSET`, `ECC_P_NUM_BYTES`, `ECC_Q_OFFSET` and `ECC_Q_NUM_BYTES`
abbrev pub ecc_p_offset : ℕ
ecc_p_offset = 0x81c

abbrev pub ecc_p_num_bytes : ℕ
ecc_p_num_bytes = 86

abbrev pub ecc_q_offset : ℕ
ecc_q_offset = 0x8c8

abbrev pub ecc_q_num_bytes : ℕ
ecc_q_num_bytes = 52

-- The byte at an offset; in mode 2 the first four bytes count as 0.
abbrev pub ecc_byte : List ℕ → ℕ → ℕ
ecc_byte sector offset =
    if (get_or sector mode_offset 0 == 2) && ltb offset 4
    then 0
    else get_or sector (data_offset + offset) 0

-- The loops of `ecc_compute_bytes` over the components, with the accumulators `v1` and `v2`.
abbrev pub accumulate : List ℕ → List ℕ → ℕ × ℕ → ℕ × ℕ
accumulate sector [] (v1, v2) = (v1, v2)
accumulate sector (offset ∷ row) (v1, v2) =
    let byte = ecc_byte sector offset in
    accumulate sector row (get_or ecclow (bit_xor v1 byte) 0, bit_xor v2 byte)

pub ecc_compute_bytes : List ℕ → List ℕ → ℕ × ℕ
ecc_compute_bytes sector row =
    let (v1, v2) = accumulate sector row (0, 0) in
    let val1 = get_or ecchigh (bit_xor (get_or ecclow v1 0) v2) 0 in (val1, bit_xor v2 val1)

-- One of the two loops of `ecc_verify`, from parity byte `byte` on: `offset` and `num_bytes` are those
-- of the code.
pub verify_rows : List ℕ → ℕ → ℕ → ℕ → List (List ℕ) → Bool
unfolding ecc_compute_bytes
verify_rows sector offset num_bytes byte [] = true
verify_rows sector offset num_bytes byte (row ∷ rows) =
    let (val1, val2) = ecc_compute_bytes sector row in
    (get_or sector (offset + byte) 0 == val1)
    && (get_or sector (offset + num_bytes + byte) 0 == val2)
    && verify_rows sector offset num_bytes (byte + 1) rows

pub ecc_verify : List ℕ → Bool
unfolding verify_rows
ecc_verify sector =
    verify_rows sector ecc_p_offset ecc_p_num_bytes 0 poffsets
    && verify_rows sector ecc_q_offset ecc_q_num_bytes 0 qoffsets

pub ecc_xtime : ℕ → ℕ
ecc_xtime x = u8 (bit_xor (x <<< 1) ((x >>> 7) * 0x1d))

abbrev pub clear_bytes : ℕ → ℕ → List ℕ → List ℕ
clear_bytes zero offset sector = sector
clear_bytes (suc n) offset sector = clear_bytes n (offset + 1) (set sector offset 0)

pub ecc_clear : List ℕ → List ℕ
ecc_clear sector =
    clear_bytes (2 * ecc_q_num_bytes) ecc_q_offset
      (clear_bytes (2 * ecc_p_num_bytes) ecc_p_offset sector)
