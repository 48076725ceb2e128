-- ===== src/MapV5/Size.antt =====
-- `map_size_v5` of src/libchdr_chd.c, where a `size_t` has `w` bits.
use libchdr.Prelude.{ℕ, ◌-◌, ◌*◌, ◌/◌, ◌%◌, ◌^◌, ◌≤◌, ◌<◌, ◌≡◌, ◌↔◌, arith, u64}
use libchdr.Prelude.{ltb, if◌then◌else◌, Option, none, some}
use native.Mathlib.Nat.{mul-le-mul_right, le-div_iff_mul-le, mod-eq_of_lt}

-- `CHD_MAX_MAP_SIZE`
abbrev pub max_map_size : ℕ
max_map_size = 0x10000000

pub map_size_v5 : ℕ → ℕ → ℕ → Option ℕ
map_size_v5 w hunkcount mapentrybytes =
    let max_hunkcount = (2 ^ w - 1) / mapentrybytes in
    let want = u64 (hunkcount * mapentrybytes) in
    if ltb max_hunkcount hunkcount
    then none
    else if ltb max_map_size want
    then none
    else some (want % 2 ^ w)

-- The size is returned exactly if it is at most `max_map_size`, and it is the product of the numbers:
-- neither the product nor its conversion to `size_t` wraps.
pub map_size_v5-some :
    (w hunkcount mapentrybytes size : ℕ)
    → hunkcount < 2 ^ 32
    → mapentrybytes < 2 ^ 32
    → 0 < mapentrybytes
    → max_map_size < 2 ^ w
    → (map_size_v5 w hunkcount mapentrybytes ≡ some size)
      ↔ ((hunkcount * mapentrybytes ≤ max_map_size) × (size ≡ hunkcount * mapentrybytes))
unfolding map_size_v5
map_size_v5-some w hunkcount mapentrybytes size few short pos wide =
    let want = hunkcount * mapentrybytes in
    let top = 2 ^ w - 1 in
    let bound : want ≤ 2 ^ 32 * mapentrybytes = mul-le-mul_right mapentrybytes (omega arith) in
    let exact : want % 2 ^ 64 ≡ want = omega arith in
    let fits : (hunkcount ≤ top / mapentrybytes) ↔ (want ≤ top) = le-div_iff_mul-le pos in
    let small : want ≤ max_map_size → want % 2 ^ w ≡ want =
      λ h. mod-eq_of_lt (omega (arith, wide)) in
    ground (arith, exact, fits, small)
