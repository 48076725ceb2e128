-- ===== src/Ecc/Tests.antt =====
-- Runs of the error correction codes.
use libchdr.Prelude.{◌+◌, ◌*◌, ◌/◌, ◌%◌, ◌≡◌, arith, bit_xor, [], get_or}
use libchdr.Ecc.{ecc_xtime}
use libchdr.Ecc.Tables.{ecclow, ecchigh}
use libchdr.Ecc.POffsets.{poffsets}
use libchdr.Ecc.QOffsets.{qoffsets}
use libchdr.Ecc.Layout.{ecclow-ecchigh, poffsets-entry, qoffsets-entry}

ecclow-ecchigh_example :
    (get_or ecclow 200 0 ≡ ecc_xtime 200)
    × (bit_xor (get_or ecclow (get_or ecchigh 200 0) 0) (get_or ecchigh 200 0) ≡ 200)
ecclow-ecchigh_example = ecclow-ecchigh 200 (omega arith)

poffsets-entry_example : get_or (get_or poffsets 85 []) 23 0 ≡ 85 + 86 * 23
poffsets-entry_example = poffsets-entry 85 23 (omega arith) (omega arith)

qoffsets-entry_example :
    get_or (get_or qoffsets 51 []) 42 0 ≡ (86 * (51 / 2) + 51 % 2 + 88 * 42) % 2236
qoffsets-entry_example = qoffsets-entry 51 42 (omega arith) (omega arith)
