-- ===== src/MapV5/Entries.antt =====
-- The 12 bytes of an entry of the map.
use libchdr.Prelude.{zero, suc, ◌%◌, ◌^◌, ◌≡◌, ◌<◌, refl, ◌∙◌, arith, get_or, bit_and}
use libchdr.Prelude.Bits.{bit_and-mask}
use libchdr.Bytes.{get_bigendian_uint16, get_bigendian_uint24, get_bigendian_uint48}
use libchdr.Bytes.{put_bigendian_uint16, put_bigendian_uint24, put_bigendian_uint48}
use libchdr.Bytes.Order.{IsBytes, get_bigendian-eq}
use libchdr.MapV5.{RawEntry, put_entry}

put_entry-IsBytes : (e : RawEntry) → e.compression < 256 → IsBytes (put_entry e)
unfolding put_entry put_bigendian_uint16 put_bigendian_uint24 put_bigendian_uint48
put_entry-IsBytes e h zero = omega arith
put_entry-IsBytes e h (suc zero) = omega arith
put_entry-IsBytes e h (suc (suc zero)) = omega arith
put_entry-IsBytes e h (suc (suc (suc zero))) = omega arith
put_entry-IsBytes e h (suc (suc (suc (suc zero)))) = omega arith
put_entry-IsBytes e h (suc (suc (suc (suc (suc zero))))) = omega arith
put_entry-IsBytes e h (suc (suc (suc (suc (suc (suc zero)))))) = omega arith
put_entry-IsBytes e h (suc (suc (suc (suc (suc (suc (suc zero))))))) = omega arith
put_entry-IsBytes e h (suc (suc (suc (suc (suc (suc (suc (suc zero)))))))) = omega arith
put_entry-IsBytes e h (suc (suc (suc (suc (suc (suc (suc (suc (suc zero))))))))) = omega arith
put_entry-IsBytes e h (suc (suc (suc (suc (suc (suc (suc (suc (suc (suc zero)))))))))) = omega arith
put_entry-IsBytes e h (suc (suc (suc (suc (suc (suc (suc (suc (suc (suc (suc zero))))))))))) =
    omega arith
put_entry-IsBytes e h (suc (suc (suc (suc (suc (suc (suc (suc (suc (suc (suc (suc j)))))))))))) =
    omega arith

-- The fields of an entry are read back from its bytes, cut off to their widths.
pub put_entry-fields :
    (e : RawEntry)
    → e.compression < 256
    → (get_or (put_entry e) 0 0 ≡ e.compression)
      × (get_bigendian_uint24 (put_entry e) 1 ≡ e.length % 2 ^ 24)
      × (get_bigendian_uint48 (put_entry e) 4 ≡ e.offset % 2 ^ 48)
      × (get_bigendian_uint16 (put_entry e) 10 ≡ e.crc % 2 ^ 16)
unfolding put_entry put_bigendian_uint16 put_bigendian_uint24 put_bigendian_uint48
put_entry-fields e h =
    let mask24 : bit_and e.length 0xffffff ≡ e.length % 2 ^ 24 = bit_and-mask 24 e.length in
    let mask48 : bit_and e.offset 0xffffffffffff ≡ e.offset % 2 ^ 48 = bit_and-mask 48 e.offset in
    let bytes = put_entry-IsBytes e h in
    (
      refl,
      (get_bigendian-eq (put_entry e) 1 bytes).1 ∙ omega (arith, mask24),
      (get_bigendian-eq (put_entry e) 4 bytes).3 ∙ omega (arith, mask48),
      (get_bigendian-eq (put_entry e) 10 bytes).0 ∙ omega arith,
    )
