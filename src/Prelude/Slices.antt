-- ===== src/Prelude/Slices.antt =====
-- Parts of an array: reading a range and writing a range, entry by entry.
use Prim.Native.Nat.{ℕ, zero, suc, ◌+◌, ◌-◌, ◌≤◌, ◌<◌}
use mathlib.Core.Path.{◌≡◌, refl, subst, ◌∙◌}
use mathlib.Core.Logic.{inl, inr}
use mathlib.Core.List.{List, [], ◌∷◌, ◌++◌}
use mathlib.Core.Option.{none}
use mathlib.Core.Bool.{true, false}
use native.Mathlib.Omega.{arith}
use libchdr.Prelude.Tests.{ltb, if◌then◌else◌, Bool-cases}
use libchdr.Prelude.Lists.{length, get_elem?, take, drop, length-take, length-drop, length-append}

module _ {ℓ} {A : Type ℓ} where
  pub get_elem?-drop :
      (i : ℕ) (xs : List A) (j : ℕ) → get_elem? (drop i xs) j ≡ get_elem? xs (i + j)
  get_elem?-drop zero xs j = let e : 0 + j ≡ j = omega arith in rw e
  get_elem?-drop (suc i) [] j = refl
  get_elem?-drop (suc i) (x ∷ xs) j =
      let e : suc i + j ≡ suc (i + j) = omega arith in rw e (get_elem?-drop i xs j)

  pub get_elem?-take :
      (n : ℕ) (xs : List A) (j : ℕ)
      → get_elem? (take n xs) j ≡ (if ltb j n then get_elem? xs j else none)
  get_elem?-take zero xs j = ground arith
  get_elem?-take (suc n) [] j = ground arith
  get_elem?-take (suc n) (x ∷ xs) zero = ground arith
  get_elem?-take (suc n) (x ∷ xs) (suc j) = ground (arith, get_elem?-take n xs j)

  pub get_elem?-append :
      (xs ys : List A) (j : ℕ)
      → get_elem? (xs ++ ys) j
        ≡ (if ltb j (length xs) then get_elem? xs j else get_elem? ys (j - length xs))
  get_elem?-append [] ys j = let e : j - 0 ≡ j = omega arith in rw e (ground arith)
  get_elem?-append (x ∷ xs) ys zero = ground arith
  get_elem?-append (x ∷ xs) ys (suc j) =
      let e : suc j - suc (length xs) ≡ j - length xs = omega arith in
      rw e (ground (arith, get_elem?-append xs ys j))

  pub get_elem?-none : (xs : List A) (j : ℕ) → length xs ≤ j → get_elem? xs j ≡ none
  get_elem?-none [] j h = refl
  get_elem?-none (x ∷ xs) zero h = absurd (omega arith)
  get_elem?-none (x ∷ xs) (suc j) h = get_elem?-none xs j (omega arith)

  pub list_ext : (xs ys : List A) → ((j : ℕ) → get_elem? xs j ≡ get_elem? ys j) → xs ≡ ys
  list_ext [] [] h = refl
  list_ext [] (y ∷ ys) h = absurd (let e = h 0 in cc)
  list_ext (x ∷ xs) [] h = absurd (let e = h 0 in cc)
  list_ext (x ∷ xs) (y ∷ ys) h =
      let head : x ≡ y = let e = h 0 in cc in let tail = list_ext xs ys (λ j. h (suc j)) in cc

  -- The `n` entries from index `i` on.
  abbrev pub slice : List A → ℕ → ℕ → List A
  slice xs i n = take n (drop i xs)

  -- The entries from index `i` on replaced by those of another array.
  abbrev pub overwrite : List A → ℕ → List A → List A
  overwrite xs i ys = take i xs ++ (ys ++ drop (i + length ys) xs)

  pub get_elem?-slice :
      (xs : List A) (i n j : ℕ)
      → get_elem? (slice xs i n) j ≡ (if ltb j n then get_elem? xs (i + j) else none)
  get_elem?-slice xs i n j = ground (arith, get_elem?-take n (drop i xs) j, get_elem?-drop i xs j)

  pub length-slice : (xs : List A) (i n : ℕ) → i + n ≤ length xs → length (slice xs i n) ≡ n
  length-slice xs i n h = omega (arith, length-take n (drop i xs), length-drop i xs)

  pub length-overwrite :
      (xs : List A) (i : ℕ) (ys : List A)
      → i + length ys ≤ length xs
      → length (overwrite xs i ys) ≡ length xs
  length-overwrite xs i ys h = omega (
    arith,
    length-append (take i xs) (ys ++ drop (i + length ys) xs),
    length-append ys (drop (i + length ys) xs),
    length-take i xs,
    length-drop (i + length ys) xs,
  )

  pub get_elem?-overwrite :
      (xs : List A) (i : ℕ) (ys : List A) (j : ℕ)
      → i + length ys ≤ length xs
      → get_elem? (overwrite xs i ys) j ≡ (
          if ltb j i
          then get_elem? xs j
          else if ltb j (i + length ys)
          then get_elem? ys (j - i)
          else get_elem? xs j)
  get_elem?-overwrite xs i ys j h =
      let before : length (take i xs) ≡ i = omega (arith, length-take i xs) in
      let rest = ys ++ drop (i + length ys) xs in
      let outer = get_elem?-append (take i xs) rest j in
      let inner = get_elem?-append ys (drop (i + length ys) xs) (j - i) in
      let last = get_elem?-drop (i + length ys) xs (j - i - length ys) in
      elim (Bool-cases (ltb j i)) [
        | inl low ↦ outer ∙ rw (before, low) (get_elem?-take i xs j ∙ rw low refl)
        | inr not_low ↦ elim (Bool-cases (ltb j (i + length ys))) [
          | inl mid ↦
              let within : ltb (j - i) (length ys) ≡ true = ground arith in
              outer ∙ rw (before, not_low, mid) (inner ∙ rw within refl)
          | inr not_mid ↦
              let beyond : ltb (j - i) (length ys) ≡ false = ground arith in
              let place : i + length ys + (j - i - length ys) ≡ j = ground arith in
              outer ∙ rw (before, not_low, not_mid) (inner ∙ rw beyond (last ∙ rw place refl))
        ]
      ]

  -- Two ranges with the same entries are the same.
  pub slice_ext :
      (xs ys : List A) (i k n : ℕ)
      → ((j : ℕ) → j < n → get_elem? xs (i + j) ≡ get_elem? ys (k + j))
      → slice xs i n ≡ slice ys k n
  slice_ext xs ys i k n h =
      list_ext (slice xs i n) (slice ys k n)
        λ j. ground (arith, get_elem?-slice xs i n j, get_elem?-slice ys k n j, h j)

  pub take_all : (xs : List A) (n : ℕ) → length xs ≡ n → take n xs ≡ xs
  take_all [] zero size = refl
  take_all [] (suc n) size = refl
  take_all (x ∷ xs) zero size = absurd (omega arith)
  take_all (x ∷ xs) (suc n) size = rw (take_all xs n (omega arith))

  append-drop_all : (ys xs : List A) → length ys ≡ length xs → ys ++ drop (length ys) xs ≡ ys
  append-drop_all [] [] size = refl
  append-drop_all [] (x ∷ xs) size = absurd (omega arith)
  append-drop_all (y ∷ ys) [] size = absurd (omega arith)
  append-drop_all (y ∷ ys) (x ∷ xs) size = rw (append-drop_all ys xs (omega arith))

  -- All of an array replaced.
  pub overwrite_all : (xs ys : List A) → length ys ≡ length xs → overwrite xs 0 ys ≡ ys
  overwrite_all xs ys size =
      let start : 0 + length ys ≡ length ys = omega arith in rw start (append-drop_all ys xs size)

  -- The end of an array replaced.
  overwrite-append :
      (xs zs ys : List A) → length ys ≡ length zs → overwrite (xs ++ zs) (length xs) ys ≡ xs ++ ys
  overwrite-append [] zs ys size = overwrite_all zs ys size
  overwrite-append (x ∷ xs) zs ys size =
      let step : suc (length xs) + length ys ≡ suc (length xs + length ys) = omega arith in
      rw (step, overwrite-append xs zs ys size)

  drop-append : (xs ys : List A) (a : ℕ) → a ≤ length xs → drop a (xs ++ ys) ≡ drop a xs ++ ys
  drop-append xs ys zero h = refl
  drop-append [] ys (suc a) h = absurd (omega arith)
  drop-append (x ∷ xs) ys (suc a) h = drop-append xs ys a (omega arith)

  take-append :
      (xs ys : List A) (a k : ℕ) → length xs ≡ k → take (a + k) (xs ++ ys) ≡ xs ++ take a ys
  take-append [] ys a k size = let sum : a + k ≡ a = omega arith in rw sum refl
  take-append (x ∷ xs) ys a zero size = absurd (omega arith)
  take-append (x ∷ xs) ys a (suc k) size =
      let sum : a + suc k ≡ suc (a + k) = omega arith in
      rw (sum, take-append xs ys a k (omega arith))

  -- The end of one array and the start of another, written one after the other.
  pub overwrite-halves :
      (xs ys zs : List A) (a k : ℕ)
      → length xs ≡ a + k
      → length ys ≡ a + k
      → length zs ≡ a + k
      → overwrite (overwrite zs 0 (slice xs a k)) k (slice ys 0 a) ≡ slice (xs ++ ys) a (a + k)
  overwrite-halves xs ys zs a k size_xs size_ys size_zs =
      let front : length (slice xs a k) ≡ k = length-slice xs a k (omega arith) in
      let back : length (slice ys 0 a) ≡ a = length-slice ys 0 a (omega arith) in
      let rest = drop (0 + length (slice xs a k)) zs in
      let end : slice xs a k ≡ drop a xs =
        take_all (drop a xs) k (omega (arith, length-drop a xs)) in
      let joined =
        overwrite-append (slice xs a k) rest (slice ys 0 a)
          (omega (arith, back, front, length-drop (0 + length (slice xs a k)) zs)) in
      subst
        (λ n.
          overwrite (overwrite zs 0 (slice xs a k)) n (slice ys 0 a) ≡ slice xs a k ++ slice ys 0 a)
        front joined
      ∙ rw
          (
            drop-append xs ys a (omega arith),
            take-append (drop a xs) ys a k (omega (arith, length-drop a xs)),
            end,
          )
          refl
