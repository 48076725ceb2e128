-- ===== src/Bytes/Order.antt =====
-- The readers and writers against base 256: what a reader returns is the number whose digits
-- are the bytes, and what a writer stores is read back.
use libchdr.Prelude.{ℕ, zero, suc, ◌+◌, ◌*◌, ◌/◌, ◌%◌, ◌^◌, ◌≤◌, ◌<◌}
use libchdr.Prelude.{◌≡◌, refl, ap, ◌∙◌, arith, List, get_or, set, length, length-set}
use libchdr.Prelude.{get_or-set}
use libchdr.Prelude.Bits.{bit_or-add, bit_and-mask}
use libchdr.Prelude.Pow.{mod-mul}
use native.Mathlib.Nat.{one-le-pow, pow-suc}
use libchdr.Bytes.{get_bigendian_uint16, get_bigendian_uint24, get_bigendian_uint32}
use libchdr.Bytes.{get_bigendian_uint48, get_bigendian_uint64}
use libchdr.Bytes.{put_bigendian_uint16, put_bigendian_uint24, put_bigendian_uint32}
use libchdr.Bytes.{put_bigendian_uint48, put_bigendian_uint64}

-- The number whose base-256 digits are the `n` bytes from index `i` on, highest first.
abbrev pub big_endian : List ℕ → ℕ → ℕ → ℕ
big_endian base i zero = 0
big_endian base i (suc n) = big_endian base i n * 256 + get_or base (i + n) 0

-- The digits of a number written to the `n` bytes from index `i` on.
abbrev pub put_big_endian : ℕ → List ℕ → ℕ → ℕ → List ℕ
put_big_endian zero base i value = base
put_big_endian (suc n) base i value =
    set (put_big_endian n base i (value / 256)) (i + n) (value % 256)

abbrev pub IsBytes : List ℕ → Type 0
IsBytes base = (j : ℕ) → get_or base j 0 < 256

pub length-put_big_endian :
    (n : ℕ) (base : List ℕ) (i value : ℕ) → length (put_big_endian n base i value) ≡ length base
length-put_big_endian zero base i value = refl
length-put_big_endian (suc n) base i value =
    length-set (put_big_endian n base i (value / 256)) (i + n) (value % 256)
    ∙ length-put_big_endian n base i (value / 256)

-- A write above the digits does not change them.
big_endian-set :
    (n : ℕ) (base : List ℕ) (i j v : ℕ)
    → i + n ≤ j
    → j < length base
    → big_endian (set base j v) i n ≡ big_endian base i n
big_endian-set zero base i j v h in_range = refl
big_endian-set (suc n) base i j v h in_range =
    ground (arith, big_endian-set n base i j v, get_or-set base j v (i + n) 0)

-- Written digits read back.
pub big_endian-put_big_endian :
    (n : ℕ) (base : List ℕ) (i value : ℕ)
    → i + n ≤ length base
    → big_endian (put_big_endian n base i value) i n ≡ value % 256 ^ n
big_endian-put_big_endian zero base i value h = omega arith
big_endian-put_big_endian (suc n) base i value h =
    let rest = put_big_endian n base i (value / 256) in
    let in_range : i + n < length rest =
      omega (arith, length-put_big_endian n base i (value / 256)) in
    let last : get_or (set rest (i + n) (value % 256)) (i + n) 0 ≡ value % 256 =
      ground (arith, get_or-set rest (i + n) (value % 256) (i + n) 0) in
    omega (
      arith,
      last,
      big_endian-set n rest i (i + n) (value % 256) (omega arith) in_range,
      big_endian-put_big_endian n base i (value / 256) (omega arith),
      mod-mul value (256 ^ n) 256 (one-le-pow n 256 (omega arith)) (omega arith),
      ap (λ (t : ℕ). value % t) (pow-suc 256 n),
    )

get_uint16-eq :
    (base : List ℕ) (i : ℕ) → IsBytes base → get_bigendian_uint16 base i ≡ big_endian base i 2
unfolding get_bigendian_uint16
get_uint16-eq base i h =
    let b0 = get_or base (i + 0) 0 in
    let b1 = get_or base (i + 1) 0 in
    rw (bit_or-add 8 (b0 * 2 ^ 8) (b1) (omega arith) (omega (arith, h (i + 1)))) (omega arith)

get_uint24-eq :
    (base : List ℕ) (i : ℕ) → IsBytes base → get_bigendian_uint24 base i ≡ big_endian base i 3
unfolding get_bigendian_uint24
get_uint24-eq base i h =
    let b0 = get_or base (i + 0) 0 in
    let b1 = get_or base (i + 1) 0 in
    let b2 = get_or base (i + 2) 0 in
    rw
      (
        bit_or-add 16 (b0 * 2 ^ 16) (b1 * 2 ^ 8) (omega arith) (omega (arith, h (i + 1))),
        bit_or-add 8 (b0 * 2 ^ 16 + b1 * 2 ^ 8) (b2) (omega arith) (omega (arith, h (i + 2))),
      )
      (omega arith)

get_uint32-eq :
    (base : List ℕ) (i : ℕ) → IsBytes base → get_bigendian_uint32 base i ≡ big_endian base i 4
unfolding get_bigendian_uint32
get_uint32-eq base i h =
    let b0 = get_or base (i + 0) 0 in
    let b1 = get_or base (i + 1) 0 in
    let b2 = get_or base (i + 2) 0 in
    let b3 = get_or base (i + 3) 0 in
    rw
      (
        bit_or-add 24 (b0 * 2 ^ 24) (b1 * 2 ^ 16) (omega arith) (omega (arith, h (i + 1))),
        bit_or-add 16 (b0 * 2 ^ 24 + b1 * 2 ^ 16) (b2 * 2 ^ 8) (omega arith)
            (omega (arith, h (i + 2))),
        bit_or-add 8 (b0 * 2 ^ 24 + b1 * 2 ^ 16 + b2 * 2 ^ 8) (b3) (omega arith)
            (omega (arith, h (i + 3))),
      )
      (omega arith)

get_uint48-eq :
    (base : List ℕ) (i : ℕ) → IsBytes base → get_bigendian_uint48 base i ≡ big_endian base i 6
unfolding get_bigendian_uint48
get_uint48-eq base i h =
    let b0 = get_or base (i + 0) 0 in
    let b1 = get_or base (i + 1) 0 in
    let b2 = get_or base (i + 2) 0 in
    let b3 = get_or base (i + 3) 0 in
    let b4 = get_or base (i + 4) 0 in
    let b5 = get_or base (i + 5) 0 in
    rw
      (
        bit_or-add 40 (b0 * 2 ^ 40) (b1 * 2 ^ 32) (omega arith) (omega (arith, h (i + 1))),
        bit_or-add 32 (b0 * 2 ^ 40 + b1 * 2 ^ 32) (b2 * 2 ^ 24) (omega arith)
            (omega (arith, h (i + 2))),
        bit_or-add 24 (b0 * 2 ^ 40 + b1 * 2 ^ 32 + b2 * 2 ^ 24) (b3 * 2 ^ 16) (omega arith)
            (omega (arith, h (i + 3))),
        bit_or-add 16 (b0 * 2 ^ 40 + b1 * 2 ^ 32 + b2 * 2 ^ 24 + b3 * 2 ^ 16) (b4 * 2 ^ 8)
            (omega arith) (omega (arith, h (i + 4))),
        bit_or-add 8 (b0 * 2 ^ 40 + b1 * 2 ^ 32 + b2 * 2 ^ 24 + b3 * 2 ^ 16 + b4 * 2 ^ 8) (b5)
            (omega arith) (omega (arith, h (i + 5))),
      )
      (omega arith)

get_uint64-eq :
    (base : List ℕ) (i : ℕ) → IsBytes base → get_bigendian_uint64 base i ≡ big_endian base i 8
unfolding get_bigendian_uint64
get_uint64-eq base i h =
    let b0 = get_or base (i + 0) 0 in
    let b1 = get_or base (i + 1) 0 in
    let b2 = get_or base (i + 2) 0 in
    let b3 = get_or base (i + 3) 0 in
    let b4 = get_or base (i + 4) 0 in
    let b5 = get_or base (i + 5) 0 in
    let b6 = get_or base (i + 6) 0 in
    let b7 = get_or base (i + 7) 0 in
    rw
      (
        bit_or-add 56 (b0 * 2 ^ 56) (b1 * 2 ^ 48) (omega arith) (omega (arith, h (i + 1))),
        bit_or-add 48 (b0 * 2 ^ 56 + b1 * 2 ^ 48) (b2 * 2 ^ 40) (omega arith)
            (omega (arith, h (i + 2))),
        bit_or-add 40 (b0 * 2 ^ 56 + b1 * 2 ^ 48 + b2 * 2 ^ 40) (b3 * 2 ^ 32) (omega arith)
            (omega (arith, h (i + 3))),
        bit_or-add 32 (b0 * 2 ^ 56 + b1 * 2 ^ 48 + b2 * 2 ^ 40 + b3 * 2 ^ 32) (b4 * 2 ^ 24)
            (omega arith) (omega (arith, h (i + 4))),
        bit_or-add 24 (b0 * 2 ^ 56 + b1 * 2 ^ 48 + b2 * 2 ^ 40 + b3 * 2 ^ 32 + b4 * 2 ^ 24)
            (b5 * 2 ^ 16) (omega arith) (omega (arith, h (i + 5))),
        bit_or-add 16
            (b0 * 2 ^ 56 + b1 * 2 ^ 48 + b2 * 2 ^ 40 + b3 * 2 ^ 32 + b4 * 2 ^ 24 + b5 * 2 ^ 16)
            (b6 * 2 ^ 8) (omega arith) (omega (arith, h (i + 6))),
        bit_or-add 8
            (b0 * 2 ^ 56
              + b1 * 2 ^ 48
              + b2 * 2 ^ 40
              + b3 * 2 ^ 32
              + b4 * 2 ^ 24
              + b5 * 2 ^ 16
              + b6 * 2 ^ 8)
            (b7) (omega arith) (omega (arith, h (i + 7))),
      )
      (omega arith)

put_uint16-eq :
    (base : List ℕ) (i v : ℕ) → put_bigendian_uint16 base i v ≡ put_big_endian 2 base i v
unfolding put_bigendian_uint16
put_uint16-eq base i v = ground arith

put_uint32-eq :
    (base : List ℕ) (i v : ℕ) → put_bigendian_uint32 base i v ≡ put_big_endian 4 base i v
unfolding put_bigendian_uint32
put_uint32-eq base i v = ground arith

put_uint64-eq :
    (base : List ℕ) (i v : ℕ) → put_bigendian_uint64 base i v ≡ put_big_endian 8 base i v
unfolding put_bigendian_uint64
put_uint64-eq base i v = ground arith

put_uint24-eq :
    (base : List ℕ) (i v : ℕ) → put_bigendian_uint24 base i v ≡ put_big_endian 3 base i v
unfolding put_bigendian_uint24
put_uint24-eq base i v = rw (bit_and-mask 24 v) (ground arith)

put_uint48-eq :
    (base : List ℕ) (i v : ℕ) → put_bigendian_uint48 base i v ≡ put_big_endian 6 base i v
unfolding put_bigendian_uint48
put_uint48-eq base i v = rw (bit_and-mask 48 v) (ground arith)

put_big_endian-IsBytes :
    (n : ℕ) (base : List ℕ) (i v : ℕ)
    → i + n ≤ length base
    → IsBytes base
    → IsBytes (put_big_endian n base i v)
put_big_endian-IsBytes zero base i v h bytes j = bytes j
put_big_endian-IsBytes (suc n) base i v h bytes j = ground (
  arith,
  length-put_big_endian n base i (v / 256),
  get_or-set (put_big_endian n base i (v / 256)) (i + n) (v % 256) j 0,
  put_big_endian-IsBytes n base i (v / 256) (omega arith) bytes j,
)

-- Every reader returns the number whose base-256 digits are the bytes, highest byte first.
pub get_bigendian-eq :
    (base : List ℕ) (i : ℕ)
    → IsBytes base
    → (get_bigendian_uint16 base i ≡ big_endian base i 2)
      × (get_bigendian_uint24 base i ≡ big_endian base i 3)
      × (get_bigendian_uint32 base i ≡ big_endian base i 4)
      × (get_bigendian_uint48 base i ≡ big_endian base i 6)
      × (get_bigendian_uint64 base i ≡ big_endian base i 8)
get_bigendian-eq base i h = (
  get_uint16-eq base i h,
  get_uint24-eq base i h,
  get_uint32-eq base i h,
  get_uint48-eq base i h,
  get_uint64-eq base i h,
)

get-put_uint16 :
    (base : List ℕ) (i v : ℕ)
    → IsBytes base
    → i + 2 ≤ length base
    → get_bigendian_uint16 (put_bigendian_uint16 base i v) i ≡ v % 2 ^ 16
get-put_uint16 base i v bytes h = rw (put_uint16-eq base i v) (
    get_uint16-eq _ i (put_big_endian-IsBytes 2 base i v h bytes)
    ∙ big_endian-put_big_endian 2 base i v h)

get-put_uint24 :
    (base : List ℕ) (i v : ℕ)
    → IsBytes base
    → i + 3 ≤ length base
    → get_bigendian_uint24 (put_bigendian_uint24 base i v) i ≡ v % 2 ^ 24
get-put_uint24 base i v bytes h = rw (put_uint24-eq base i v) (
    get_uint24-eq _ i (put_big_endian-IsBytes 3 base i v h bytes)
    ∙ big_endian-put_big_endian 3 base i v h)

get-put_uint32 :
    (base : List ℕ) (i v : ℕ)
    → IsBytes base
    → i + 4 ≤ length base
    → get_bigendian_uint32 (put_bigendian_uint32 base i v) i ≡ v % 2 ^ 32
get-put_uint32 base i v bytes h = rw (put_uint32-eq base i v) (
    get_uint32-eq _ i (put_big_endian-IsBytes 4 base i v h bytes)
    ∙ big_endian-put_big_endian 4 base i v h)

get-put_uint48 :
    (base : List ℕ) (i v : ℕ)
    → IsBytes base
    → i + 6 ≤ length base
    → get_bigendian_uint48 (put_bigendian_uint48 base i v) i ≡ v % 2 ^ 48
get-put_uint48 base i v bytes h = rw (put_uint48-eq base i v) (
    get_uint48-eq _ i (put_big_endian-IsBytes 6 base i v h bytes)
    ∙ big_endian-put_big_endian 6 base i v h)

get-put_uint64 :
    (base : List ℕ) (i v : ℕ)
    → IsBytes base
    → i + 8 ≤ length base
    → get_bigendian_uint64 (put_bigendian_uint64 base i v) i ≡ v % 2 ^ 64
get-put_uint64 base i v bytes h = rw (put_uint64-eq base i v) (
    get_uint64-eq _ i (put_big_endian-IsBytes 8 base i v h bytes)
    ∙ big_endian-put_big_endian 8 base i v h)

-- The readers with the writers of the same width, in bytes.
pub data IsCodec : ℕ → (List ℕ → ℕ → ℕ) → (List ℕ → ℕ → ℕ → List ℕ) → Type 0 where
  two_bytes : IsCodec 2 get_bigendian_uint16 put_bigendian_uint16
  three_bytes : IsCodec 3 get_bigendian_uint24 put_bigendian_uint24
  four_bytes : IsCodec 4 get_bigendian_uint32 put_bigendian_uint32
  six_bytes : IsCodec 6 get_bigendian_uint48 put_bigendian_uint48
  eight_bytes : IsCodec 8 get_bigendian_uint64 put_bigendian_uint64

-- A number that a writer stores in its `width` bytes inside the array is read back by the reader of the
-- same width, cut off to that width, for each of the five widths.
pub get_bigendian-put_bigendian :
    {width : ℕ} {get : List ℕ → ℕ → ℕ} {put : List ℕ → ℕ → ℕ → List ℕ}
    (codec : IsCodec width get put) (base : List ℕ) (i v : ℕ)
    → IsBytes base
    → i + width ≤ length base
    → get (put base i v) i ≡ v % 256 ^ width
get_bigendian-put_bigendian two_bytes base i v bytes h = get-put_uint16 base i v bytes h
get_bigendian-put_bigendian three_bytes base i v bytes h = get-put_uint24 base i v bytes h
get_bigendian-put_bigendian four_bytes base i v bytes h = get-put_uint32 base i v bytes h
get_bigendian-put_bigendian six_bytes base i v bytes h = get-put_uint48 base i v bytes h
get_bigendian-put_bigendian eight_bytes base i v bytes h = get-put_uint64 base i v bytes h
