-- ===== src/Huffman/Starts.antt =====
-- The loop of `huffman_assign_canonical_codes` over the code lengths, which replaces each count
-- by the first code of that length.
use libchdr.Prelude.{ℕ, zero, suc, ◌+◌, ◌*◌, ◌/◌, ◌%◌, ◌^◌, ◌≤◌, ◌<◌, ◌≡◌, refl, ◌∙◌}
use libchdr.Prelude.{arith, List, get_or, set, length, get_or-set, length-set}
use libchdr.Prelude.{some, u32, subst}
use native.Mathlib.Decide.{dec_lt}
use libchdr.Huffman.{start_codes}

-- A table of 33 numbers, none above `n`.
pub record IsBounded (n : ℕ) (histo : List ℕ) : Type 0 where
  pub size : length histo ≡ 33
  pub bound : (i : ℕ) → get_or histo i 0 ≤ n

-- `out` holds the first codes of the lengths up to `l`, for the counts in `histo`; the first
-- code of length `l` is `cur`. The codes of one length and the longer ones pair up.
pub record IsStarted (n l cur : ℕ) (histo out : List ℕ) : Type 0 where
  pub bounded : IsBounded n out
  pub above : (i : ℕ) → l < i → get_or out i 0 ≡ get_or histo i 0
  pub first : 0 < l → get_or out l 0 ≡ cur
  pub paired :
      (i : ℕ) → 0 < i → i < l → get_or out i 0 * 2 ≡ get_or out (suc i) 0 + get_or histo (suc i) 0

module _ (n : ℕ) (few : n < 2 ^ 31) where
  start_codes-suc :
      (l cur : ℕ) (histo out : List ℕ)
      → cur ≤ n
      → get_or histo (suc l) 0 ≤ n
      → start_codes (suc l) cur histo ≡ some out
      → (start_codes l ((cur + get_or histo (suc l) 0) / 2) (set histo (suc l) cur) ≡ some out)
        × (0 < l → (cur + get_or histo (suc l) 0) % 2 ≡ 0)
  unfolding start_codes
  start_codes-suc l cur histo out hc hh e =
      let total : u32 (cur + get_or histo (suc l) 0) ≡ cur + get_or histo (suc l) 0 = omega arith in
      ground (arith, total)

  set-IsBounded :
      (i v : ℕ) (histo : List ℕ) → i ≤ 32 → v ≤ n → IsBounded n histo → IsBounded n (set histo i v)
  set-IsBounded i v histo small hv b = record {
    size = length-set histo i v ∙ b.size;
    bound = λ j. ground (arith, b.size, b.bound j, get_or-set histo i v j 0);
  }

  pub start_codes-IsStarted :
      (l cur : ℕ) (histo out : List ℕ)
      → l ≤ 32
      → cur ≤ n
      → IsBounded n histo
      → start_codes l cur histo ≡ some out
      → IsStarted n l cur histo out
  unfolding start_codes
  start_codes-IsStarted zero cur histo out small hc b e =
      let same : histo ≡ out = cc in
      subst (λ (t : List ℕ). IsStarted n 0 cur histo t) same
        (record {
          bounded = b;
          above = λ i h. refl;
          first = λ h. absurd (omega arith);
          paired = λ i p h. absurd (omega arith);
        })
  start_codes-IsStarted (suc l) cur histo out small hc b e =
      let step = start_codes-suc l cur histo out hc (b.bound (suc l)) e in
      let mark = set histo (suc l) cur in
      let read = λ (i : ℕ). get_or-set histo (suc l) cur i 0 (omega (arith, b.size)) in
      let rest =
        start_codes-IsStarted l ((cur + get_or histo (suc l) 0) / 2) mark out (omega arith)
          (omega (arith, b.bound (suc l))) (set-IsBounded (suc l) cur histo small hc b) step.0 in
      let here : get_or out (suc l) 0 ≡ cur = ground (arith, rest.above (suc l), read (suc l)) in
      record {
        bounded = rest.bounded;
        above = λ i h. ground (arith, rest.above i, read i);
        first = λ h. here;
        paired = λ i p h. elim (dec_lt i l) [
          | yes below ↦ ground (arith, rest.paired i p below, read (suc i))
          | no last ↦
              let same : i ≡ l = omega arith in
              rw same (omega (arith, here, rest.first (omega arith), step.1 (omega arith)))
        ];
      }
