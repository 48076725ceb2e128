-- ===== src/Header/Tests.antt =====
-- A header of the version 5 in memory: 2 hunks of 4 bytes in units of 2 bytes, not compressed.
use libchdr.Prelude.{ℕ, zero, suc, ◌≡◌, refl, subst, sym, arith, List, [], ◌∷◌, ◌++◌}
use libchdr.Prelude.{replicate, take, drop, Bool, true, false, ltb, ◌&&◌, Option, none, inr}
use libchdr.Bytes.{get_bigendian_uint32, get_bigendian_uint64}
use libchdr.Bytes.Order.{IsBytes}
use libchdr.ReadAhead.Memory.{memory_read, memory_read-Reads}
use libchdr.Header.Fields.{ChdHeader, v5_fields, start_header}
use libchdr.Header.Read.{header_read}
use libchdr.Header.Checks.{IsValid}
use libchdr.Header.Valid.{ReadsBytes, header_read-IsValid}

abbrev header_bytes : List ℕ
header_bytes =
    0x4d
    ∷ 0x43
    ∷ 0x6f
    ∷ 0x6d
    ∷ 0x70
    ∷ 0x72
    ∷ 0x48
    ∷ 0x44
    ∷ 0
    ∷ 0
    ∷ 0
    ∷ 124
    ∷ 0
    ∷ 0
    ∷ 0
    ∷ 5
    ∷ (replicate 16 0
        ++ (0
            ∷ 0
            ∷ 0
            ∷ 0
            ∷ 0
            ∷ 0
            ∷ 0
            ∷ 8
            ∷ 0
            ∷ 0
            ∷ 0
            ∷ 0
            ∷ 0
            ∷ 0
            ∷ 0
            ∷ 124
            ∷ (replicate 8 0 ++ (0 ∷ 0 ∷ 0 ∷ 4 ∷ 0 ∷ 0 ∷ 0 ∷ 2 ∷ replicate 60 0))))

abbrev all_bytes : List ℕ → Bool
all_bytes [] = true
all_bytes (x ∷ xs) = ltb x 256 && all_bytes xs

both_true : (a b : Bool) → (a && b) ≡ true → (a ≡ true) × (b ≡ true)
both_true true b e = (refl, e)
both_true false b e = absurd (cc)

all_bytes-IsBytes : (xs : List ℕ) → all_bytes xs ≡ true → IsBytes xs
all_bytes-IsBytes [] e j = omega arith
all_bytes-IsBytes (x ∷ xs) e zero =
    let first = (both_true (ltb x 256) (all_bytes xs) e).0 in ground arith
all_bytes-IsBytes (x ∷ xs) e (suc j) =
    all_bytes-IsBytes xs (both_true (ltb x 256) (all_bytes xs) e).1 j

drop-IsBytes : (i : ℕ) (xs : List ℕ) → IsBytes xs → IsBytes (drop i xs)
drop-IsBytes zero xs bytes = bytes
drop-IsBytes (suc i) [] bytes = bytes
drop-IsBytes (suc i) (x ∷ xs) bytes = drop-IsBytes i xs (λ j. bytes (suc j))

take-IsBytes : (n : ℕ) (xs : List ℕ) → IsBytes xs → IsBytes (take n xs)
take-IsBytes zero xs bytes j = omega arith
take-IsBytes (suc n) [] bytes j = bytes j
take-IsBytes (suc n) (x ∷ xs) bytes zero = bytes zero
take-IsBytes (suc n) (x ∷ xs) bytes (suc j) = take-IsBytes n xs (λ k. bytes (suc k)) j

abbrev sprintf : ℕ → ℕ → ℕ → ℕ → List ℕ
sprintf a b c d = []

abbrev sscanf : List ℕ → Option ℕ
sscanf text = none

header_bytes-ReadsBytes : ReadsBytes (memory_read header_bytes) sprintf sscanf
header_bytes-ReadsBytes i n raw e =
    subst IsBytes (sym (memory_read-Reads header_bytes i n raw e).0) (
      take-IsBytes n (drop i header_bytes)
        (drop-IsBytes i header_bytes (all_bytes-IsBytes header_bytes refl)))

abbrev two_hunks : ChdHeader
two_hunks = v5_fields header_bytes (start_header 124 5)

accepted : header_read (memory_read header_bytes) sprintf sscanf true true 300 ≡ inr two_hunks
unfolding header_read get_bigendian_uint32 get_bigendian_uint64
accepted = refl

header_read-IsValid_example : IsValid 300 two_hunks
header_read-IsValid_example =
    header_read-IsValid (memory_read header_bytes) sprintf sscanf true true 300 two_hunks
      header_bytes-ReadsBytes accepted
