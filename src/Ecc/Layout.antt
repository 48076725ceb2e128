-- ===== src/Ecc/Layout.antt =====
-- What the tables of src/libchdr_cdrom.c hold: the offsets by their formula, and the field tables by
-- multiplication.
use libchdr.Prelude.{ℕ, zero, suc, ◌+◌, ◌*◌, ◌/◌, ◌%◌, ◌<◌, ◌≡◌, refl, subst, arith, bit_xor}
use libchdr.Prelude.{List, [], ◌∷◌, length, get_or, Bool, true, ◌==◌, ◌&&◌, ==_iff}
use libchdr.Ecc.{ecc_xtime}
use libchdr.Ecc.Tables.{ecclow, ecchigh}
use libchdr.Ecc.POffsets.{poffsets}
use libchdr.Ecc.QOffsets.{qoffsets}

-- A test of every entry with its index, from `i` on.
abbrev all_from {ℓ} : {A : Type ℓ} → (ℕ → A → Bool) → ℕ → List A → Bool
all_from test i [] = true
all_from test i (x ∷ xs) = test i x && all_from test (i + 1) xs

all_from-get_or {ℓ} :
    {A : Type ℓ} (test : ℕ → A → Bool) (i : ℕ) (xs : List A) (j : ℕ) (d : A)
    → all_from test i xs ≡ true
    → j < length xs
    → test (i + j) (get_or xs j d) ≡ true
all_from-get_or test i [] j d h below = absurd (omega arith)
all_from-get_or test i (x ∷ xs) zero d h below =
    let same : i + 0 ≡ i = omega arith in rw same (ground arith)
all_from-get_or test i (x ∷ xs) (suc j) d h below =
    let same : i + suc j ≡ i + 1 + j = omega arith in
    rw same (all_from-get_or test (i + 1) xs j d (ground arith) (omega arith))

get_or-all_from {ℓ} :
    {A : Type ℓ} (test : ℕ → A → Bool) (xs : List A) (j : ℕ) (d : A)
    → all_from test 0 xs ≡ true
    → j < length xs
    → test j (get_or xs j d) ≡ true
get_or-all_from test xs j d h below =
    let none_before : 0 + j ≡ j = omega arith in
    subst (λ k. test k (get_or xs j d) ≡ true) none_before (all_from-get_or test 0 xs j d h below)

-- `ecclow` multiplies by x in the field with polynomial x^8 + x^4 + x^3 + x^2 + 1, as `ecc_xtime`
-- does, and `ecchigh` divides by x + 1.
pub ecclow-ecchigh :
    (x : ℕ)
    → x < 256
    → (get_or ecclow x 0 ≡ ecc_xtime x)
      × (bit_xor (get_or ecclow (get_or ecchigh x 0) 0) (get_or ecchigh x 0) ≡ x)
unfolding ecc_xtime
ecclow-ecchigh x h = (
  (==_iff _ _).0 (get_or-all_from (λ i v. v == ecc_xtime i) ecclow x 0 refl h),
  (==_iff _ _).0 (get_or-all_from (λ i v. bit_xor (get_or ecclow v 0) v == i) ecchigh x 0 refl h),
)

-- A row of offsets with a given length and given entries.
abbrev is_row : ℕ → (ℕ → ℕ) → List ℕ → Bool
is_row n entry row = (length row == n) && all_from (λ c v. v == entry c) 0 row

is_row-get_or :
    (n : ℕ) (entry : ℕ → ℕ) (row : List ℕ) (c : ℕ)
    → is_row n entry row ≡ true
    → c < n
    → get_or row c 0 ≡ entry c
is_row-get_or n entry row c h below =
    let size : length row ≡ n = ground arith in
    (==_iff _ _).0
      (get_or-all_from (λ k v. v == entry k) row c 0 (ground arith) (omega (arith, size)))

-- Component `c` of row `r` of the P code is byte `r + 86 * c` of the data.
pub poffsets-entry : (r c : ℕ) → r < 86 → c < 24 → get_or (get_or poffsets r []) c 0 ≡ r + 86 * c
poffsets-entry r c h below =
    is_row-get_or 24 (λ k. r + 86 * k) (get_or poffsets r []) c
      (get_or-all_from (λ q row. is_row 24 (λ k. q + 86 * k) row) poffsets r [] refl h) below

-- Component `c` of row `r` of the Q code runs along a diagonal of the data and the P code, which are
-- 2236 bytes.
pub qoffsets-entry :
    (r c : ℕ)
    → r < 52
    → c < 43
    → get_or (get_or qoffsets r []) c 0 ≡ (86 * (r / 2) + r % 2 + 88 * c) % 2236
qoffsets-entry r c h below =
    is_row-get_or 43 (λ k. (86 * (r / 2) + r % 2 + 88 * k) % 2236) (get_or qoffsets r []) c
      (get_or-all_from (λ q row. is_row 43 (λ k. (86 * (q / 2) + q % 2 + 88 * k) % 2236) row)
        qoffsets r [] refl h)
      below
