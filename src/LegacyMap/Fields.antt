-- ===== src/LegacyMap/Fields.antt =====
-- What the two readers of map entries take from the bytes.
use libchdr.Prelude.{ℕ, ◌+◌, ◌*◌, ◌^◌, ◌<◌, ◌≡◌, ap, ◌∙◌, refl, arith, List, get_or}
use libchdr.Prelude.{◌==◌, if◌then◌else◌}
use libchdr.Prelude.Bits.{bit_or-add, bit_or_comm}
use libchdr.Bytes.{get_bigendian_uint16}
use libchdr.Bytes.Order.{IsBytes, big_endian, get_bigendian-eq}
use libchdr.LegacyMap.{map_extract, map_extract_old}

-- An entry has an offset of 8 bytes, a checksum of 4, a length of 3, whose highest byte is the last
-- one, and a byte of flags.
pub map_extract-fields :
    (base : List ℕ) (i : ℕ)
    → IsBytes base
    → (let e = map_extract base i in
        (e.offset ≡ big_endian base i 8)
        × (e.crc ≡ big_endian base (i + 8) 4)
        × (e.length ≡ get_or base (i + 14) 0 * 2 ^ 16 + big_endian base (i + 12) 2)
        × (e.flags ≡ get_or base (i + 15) 0))
unfolding map_extract
map_extract-fields base i bytes =
    let low = (get_bigendian-eq base (i + 12) bytes).0 in
    let b0 = bytes (i + 12 + 0) in
    let b1 = bytes (i + 12 + 1) in
    let high = get_or base (i + 14) 0 * 2 ^ 16 in
    (
      (get_bigendian-eq base i bytes).4,
      (get_bigendian-eq base (i + 8) bytes).2,
      bit_or_comm (get_bigendian_uint16 base (i + 12)) high
          ∙ bit_or-add 16 high (get_bigendian_uint16 base (i + 12)) (omega arith)
              (omega (arith, low))
          ∙ ap (λ n. high + n) low,
      refl,
    )

-- An old entry is one number of 64 bits: the upper 20 are the length, the lower 44 the offset. It has
-- no checksum, and it is uncompressed exactly if its length is that of a hunk.
pub map_extract_old-fields :
    (base : List ℕ) (i hunkbytes : ℕ)
    → IsBytes base
    → (let e = map_extract_old base i hunkbytes in
        (e.length * 2 ^ 44 + e.offset ≡ big_endian base i 8)
        × (e.offset < 2 ^ 44)
        × (e.crc ≡ 0)
        × (e.flags ≡ (if e.length == hunkbytes then 0x12 else 0x11)))
unfolding map_extract_old
map_extract_old-fields base i hunkbytes bytes =
    let word = (get_bigendian-eq base i bytes).4 in
    let b0 = bytes (i + 0) in
    let b1 = bytes (i + 1) in
    let b2 = bytes (i + 2) in
    let b3 = bytes (i + 3) in
    let b4 = bytes (i + 4) in
    let b5 = bytes (i + 5) in
    let b6 = bytes (i + 6) in
    let b7 = bytes (i + 7) in (omega (arith, word), omega arith, refl, ground arith)
