-- ===== src/LegacyMap/Tests.antt =====
-- Runs of the readers of map entries.
use libchdr.Prelude.{ℕ, zero, suc, ◌+◌, ◌*◌, ◌^◌, ◌<◌, ◌≡◌, refl, arith, List, [], ◌∷◌}
use libchdr.Prelude.{get_or, ◌==◌, if◌then◌else◌, true}
use libchdr.Bytes.{get_bigendian_uint16, get_bigendian_uint32, get_bigendian_uint64}
use libchdr.Bytes.Order.{IsBytes, big_endian}
use libchdr.LegacyMap.{MapEntry, map_extract, map_extract_old}
use libchdr.LegacyMap.Fields.{map_extract-fields, map_extract_old-fields}
use libchdr.LegacyMap.Read.{MapHeader, ok, overrun, end_of_list_cookie, map_read}
use libchdr.LegacyMap.Safe.{IsMap, map_read-IsMap, map_read-overrun}
use libchdr.ReadAhead.Memory.{memory_read}

-- A hunk compressed to 4096 bytes at offset 1000.
abbrev old_entry : List ℕ
old_entry = 1 ∷ 0 ∷ 0 ∷ 0 ∷ 0 ∷ 0 ∷ 3 ∷ 232 ∷ []

old_entry-IsBytes : IsBytes old_entry
old_entry-IsBytes zero = omega arith
old_entry-IsBytes (suc zero) = omega arith
old_entry-IsBytes (suc (suc zero)) = omega arith
old_entry-IsBytes (suc (suc (suc zero))) = omega arith
old_entry-IsBytes (suc (suc (suc (suc zero)))) = omega arith
old_entry-IsBytes (suc (suc (suc (suc (suc zero))))) = omega arith
old_entry-IsBytes (suc (suc (suc (suc (suc (suc zero)))))) = omega arith
old_entry-IsBytes (suc (suc (suc (suc (suc (suc (suc zero))))))) = omega arith
old_entry-IsBytes (suc (suc (suc (suc (suc (suc (suc (suc j)))))))) = omega arith

abbrev extracted : MapEntry
extracted = record { offset = 1000; crc = 0; length = 4096; flags = 0x12 }

map_extract_old-fields_example :
    (extracted.length * 2 ^ 44 + extracted.offset ≡ big_endian old_entry 0 8)
    × (extracted.offset < 2 ^ 44)
    × (extracted.crc ≡ 0)
    × (extracted.flags ≡ (if extracted.length == 4096 then 0x12 else 0x11))
unfolding map_extract_old get_bigendian_uint64
map_extract_old-fields_example = map_extract_old-fields old_entry 0 4096 old_entry-IsBytes

abbrev new_entry : List ℕ
new_entry = 0 ∷ 0 ∷ 0 ∷ 0 ∷ 0 ∷ 0 ∷ 3 ∷ 232 ∷ 1 ∷ 2 ∷ 3 ∷ 4 ∷ 16 ∷ 0 ∷ 1 ∷ 1 ∷ []

new_entry-IsBytes : IsBytes new_entry
new_entry-IsBytes zero = omega arith
new_entry-IsBytes (suc zero) = omega arith
new_entry-IsBytes (suc (suc zero)) = omega arith
new_entry-IsBytes (suc (suc (suc zero))) = omega arith
new_entry-IsBytes (suc (suc (suc (suc zero)))) = omega arith
new_entry-IsBytes (suc (suc (suc (suc (suc zero))))) = omega arith
new_entry-IsBytes (suc (suc (suc (suc (suc (suc zero)))))) = omega arith
new_entry-IsBytes (suc (suc (suc (suc (suc (suc (suc zero))))))) = omega arith
new_entry-IsBytes (suc (suc (suc (suc (suc (suc (suc (suc zero)))))))) = omega arith
new_entry-IsBytes (suc (suc (suc (suc (suc (suc (suc (suc (suc zero))))))))) = omega arith
new_entry-IsBytes (suc (suc (suc (suc (suc (suc (suc (suc (suc (suc zero)))))))))) = omega arith
new_entry-IsBytes (suc (suc (suc (suc (suc (suc (suc (suc (suc (suc (suc zero))))))))))) =
    omega arith
new_entry-IsBytes (suc (suc (suc (suc (suc (suc (suc (suc (suc (suc (suc (suc zero)))))))))))) =
    omega arith
new_entry-IsBytes
      (suc (suc (suc (suc (suc (suc (suc (suc (suc (suc (suc (suc (suc zero))))))))))))) =
    omega arith
new_entry-IsBytes
      (suc (suc (suc (suc (suc (suc (suc (suc (suc (suc (suc (suc (suc (suc zero)))))))))))))) =
    omega arith
new_entry-IsBytes
      (suc
        (suc (suc (suc (suc (suc (suc (suc (suc (suc (suc (suc (suc (suc (suc zero))))))))))))))) =
    omega arith
new_entry-IsBytes
      (suc (
        suc
          (suc (suc (suc (suc (suc (suc (suc (suc (suc (suc (suc (suc (suc (suc j)))))))))))))))) =
    omega arith

-- 69632 bytes at offset 1000.
abbrev extracted_new : MapEntry
extracted_new = record { offset = 1000; crc = 0x01020304; length = 69632; flags = 1 }

map_extract-fields_example :
    (extracted_new.offset ≡ big_endian new_entry 0 8)
    × (extracted_new.crc ≡ big_endian new_entry 8 4)
    × (extracted_new.length ≡ get_or new_entry 14 0 * 2 ^ 16 + big_endian new_entry 12 2)
    × (extracted_new.flags ≡ get_or new_entry 15 0)
unfolding map_extract get_bigendian_uint64 get_bigendian_uint32 get_bigendian_uint16
map_extract-fields_example = map_extract-fields new_entry 0 new_entry-IsBytes

-- A map of one hunk of the version 3 at the start of a file, of 256 bytes of data from 16 on.
abbrev map_file : List ℕ
map_file = 0 ∷ 0 ∷ 0 ∷ 0 ∷ 0 ∷ 0 ∷ 0 ∷ 16 ∷ 0 ∷ 0 ∷ 0 ∷ 0 ∷ 1 ∷ 0 ∷ 0 ∷ 0x11 ∷ end_of_list_cookie

abbrev one_hunk : MapHeader
one_hunk = record { length = 0; version = 3; hunkbytes = 4096; totalhunks = 1 }

read_one_hunk :
    map_read (memory_read map_file) 272 one_hunk true
    ≡ ok (record { offset = 16; crc = 0; length = 256; flags = 0x11 } ∷ [])
unfolding map_read map_extract get_bigendian_uint64 get_bigendian_uint32 get_bigendian_uint16
read_one_hunk = refl

map_read-IsMap_example : IsMap 272 one_hunk (map_read (memory_read map_file) 272 one_hunk true)
map_read-IsMap_example = map_read-IsMap 272 one_hunk (memory_read map_file) true (omega arith)

abbrev many_hunks : MapHeader
many_hunks = record { length = 120; version = 3; hunkbytes = 256; totalhunks = 2 ^ 31 }

map_read-overrun_example : map_read (memory_read map_file) (2 ^ 36) many_hunks true ≡ overrun
map_read-overrun_example =
    map_read-overrun (memory_read map_file) (2 ^ 36) many_hunks (omega arith) (omega arith)
