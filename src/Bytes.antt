-- ===== src/Bytes.antt =====
-- The big-endian readers and writers of src/libchdr_chd.c. A pointer into a byte array is the
-- array with an index: `get_bigendian_uint32 base i` reads `&base[i]`. A read out of range gives
-- 0 and a write out of range does nothing; the callers stay in range.
pub mod Order
mod Tests
use libchdr.Prelude.{ℕ, ◌+◌, bit_and, bit_or, List, get_or, set, u8, u16, u32, ◌<<<◌, ◌>>>◌}

unfoldable pub get_bigendian_uint64 : List ℕ → ℕ → ℕ
get_bigendian_uint64 base i =
    bit_or
      (bit_or
        (bit_or
          (bit_or
            (bit_or
              (bit_or (bit_or (get_or base (i + 0) 0 <<< 56) (get_or base (i + 1) 0 <<< 48))
                (get_or base (i + 2) 0 <<< 40))
              (get_or base (i + 3) 0 <<< 32))
            (get_or base (i + 4) 0 <<< 24))
          (get_or base (i + 5) 0 <<< 16))
        (get_or base (i + 6) 0 <<< 8))
      (get_or base (i + 7) 0)

unfoldable pub put_bigendian_uint64 : List ℕ → ℕ → ℕ → List ℕ
put_bigendian_uint64 base i value =
    let b0 = set base (i + 0) (u8 (value >>> 56)) in
    let b1 = set b0 (i + 1) (u8 (value >>> 48)) in
    let b2 = set b1 (i + 2) (u8 (value >>> 40)) in
    let b3 = set b2 (i + 3) (u8 (value >>> 32)) in
    let b4 = set b3 (i + 4) (u8 (value >>> 24)) in
    let b5 = set b4 (i + 5) (u8 (value >>> 16)) in
    let b6 = set b5 (i + 6) (u8 (value >>> 8)) in set b6 (i + 7) (u8 value)

unfoldable pub get_bigendian_uint48 : List ℕ → ℕ → ℕ
get_bigendian_uint48 base i =
    bit_or
      (bit_or
        (bit_or
          (bit_or (bit_or (get_or base (i + 0) 0 <<< 40) (get_or base (i + 1) 0 <<< 32))
            (get_or base (i + 2) 0 <<< 24))
          (get_or base (i + 3) 0 <<< 16))
        (get_or base (i + 4) 0 <<< 8))
      (get_or base (i + 5) 0)

unfoldable pub put_bigendian_uint48 : List ℕ → ℕ → ℕ → List ℕ
put_bigendian_uint48 base i value =
    let v = bit_and value 0xffffffffffff in
    let b0 = set base (i + 0) (u8 (v >>> 40)) in
    let b1 = set b0 (i + 1) (u8 (v >>> 32)) in
    let b2 = set b1 (i + 2) (u8 (v >>> 24)) in
    let b3 = set b2 (i + 3) (u8 (v >>> 16)) in
    let b4 = set b3 (i + 4) (u8 (v >>> 8)) in set b4 (i + 5) (u8 v)

unfoldable pub get_bigendian_uint32 : List ℕ → ℕ → ℕ
get_bigendian_uint32 base i =
    bit_or
      (bit_or (bit_or (get_or base (i + 0) 0 <<< 24) (get_or base (i + 1) 0 <<< 16))
        (get_or base (i + 2) 0 <<< 8))
      (get_or base (i + 3) 0)

pub put_bigendian_uint32 : List ℕ → ℕ → ℕ → List ℕ
put_bigendian_uint32 base i value =
    let b0 = set base (i + 0) (u8 (value >>> 24)) in
    let b1 = set b0 (i + 1) (u8 (value >>> 16)) in
    let b2 = set b1 (i + 2) (u8 (value >>> 8)) in set b2 (i + 3) (u8 value)

unfoldable pub put_bigendian_uint24 : List ℕ → ℕ → ℕ → List ℕ
put_bigendian_uint24 base i value =
    let v = bit_and value 0xffffff in
    let b0 = set base (i + 0) (u8 (v >>> 16)) in
    let b1 = set b0 (i + 1) (u8 (v >>> 8)) in set b1 (i + 2) (u8 v)

unfoldable pub get_bigendian_uint24 : List ℕ → ℕ → ℕ
get_bigendian_uint24 base i =
    bit_or (bit_or (get_or base (i + 0) 0 <<< 16) (get_or base (i + 1) 0 <<< 8))
      (get_or base (i + 2) 0)

unfoldable pub get_bigendian_uint16 : List ℕ → ℕ → ℕ
get_bigendian_uint16 base i = bit_or (get_or base (i + 0) 0 <<< 8) (get_or base (i + 1) 0)

unfoldable pub put_bigendian_uint16 : List ℕ → ℕ → ℕ → List ℕ
put_bigendian_uint16 base i value =
    let b0 = set base (i + 0) (u8 (value >>> 8)) in set b0 (i + 1) (u8 value)
