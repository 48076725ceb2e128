-- ===== src/Bytes/Tests.antt =====
-- Runs of the readers and writers of src/libchdr_chd.c, and their theorems at concrete arrays.
use libchdr.Prelude.{ℕ, suc, zero, ◌≡◌, refl, arith, List, [], ◌∷◌}
use libchdr.Bytes.{get_bigendian_uint16, get_bigendian_uint24, get_bigendian_uint32}
use libchdr.Bytes.{get_bigendian_uint48, get_bigendian_uint64}
use libchdr.Bytes.{put_bigendian_uint16}
use libchdr.Bytes.Order.{IsBytes, get_bigendian-eq, two_bytes, get_bigendian-put_bigendian}

abbrev eight : List ℕ
eight = 1 ∷ 2 ∷ 3 ∷ 4 ∷ 5 ∷ 6 ∷ 7 ∷ 255 ∷ []

eight-IsBytes : IsBytes eight
eight-IsBytes zero = omega arith
eight-IsBytes (suc zero) = omega arith
eight-IsBytes (suc (suc zero)) = omega arith
eight-IsBytes (suc (suc (suc zero))) = omega arith
eight-IsBytes (suc (suc (suc (suc zero)))) = omega arith
eight-IsBytes (suc (suc (suc (suc (suc zero))))) = omega arith
eight-IsBytes (suc (suc (suc (suc (suc (suc zero)))))) = omega arith
eight-IsBytes (suc (suc (suc (suc (suc (suc (suc zero))))))) = omega arith
eight-IsBytes (suc (suc (suc (suc (suc (suc (suc (suc j)))))))) = omega arith

reads : get_bigendian_uint32 eight 1 ≡ 0x02030405
unfolding get_bigendian_uint32
reads = refl

get_bigendian-eq_example :
    (get_bigendian_uint16 eight 0 ≡ 0x0102)
    × (get_bigendian_uint24 eight 0 ≡ 0x010203)
    × (get_bigendian_uint32 eight 0 ≡ 0x01020304)
    × (get_bigendian_uint48 eight 0 ≡ 0x010203040506)
    × (get_bigendian_uint64 eight 0 ≡ 0x01020304050607ff)
get_bigendian-eq_example = get_bigendian-eq eight 0 eight-IsBytes

get_bigendian-put_bigendian_example :
    get_bigendian_uint16 (put_bigendian_uint16 eight 6 0x123456789) 6 ≡ 0x6789
get_bigendian-put_bigendian_example =
    get_bigendian-put_bigendian two_bytes eight 6 0x123456789 eight-IsBytes (omega arith)
