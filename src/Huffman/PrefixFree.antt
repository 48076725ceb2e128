-- ===== src/Huffman/PrefixFree.antt =====
-- The codes that `huffman_assign_canonical_codes` gives: no code is the beginning of another.
use libchdr.Prelude.{ℕ, zero, suc, ◌+◌, ◌-◌, ◌*◌, ◌/◌, ◌^◌, ◌≤◌, ◌<◌, ◌≡◌, ap, sym, ◌∙◌}
use libchdr.Prelude.{arith, List, length, get_elem?, some, subst}
use libchdr.Prelude.Pow.{pow-add, pow_pos}
use native.Mathlib.Nat.{lt-div-mul-add, div-mul-le_self, mul-le-mul_right}
use native.Mathlib.Decide.{dec_lt, ℕ_discrete}
use libchdr.Huffman.{Node}
use libchdr.Huffman.Canonical.{count, rank, rank-lt-count, rank-lt-rank}

-- A window of `maxbits` bits begins with the code of a node.
abbrev pub Begins : ℕ → ℕ → Node → Type 0
Begins maxbits window v = window / 2 ^ (maxbits - v.numbits) ≡ v.bits

-- First codes `first l` and counts `many l` that pair up, as the loop over the lengths leaves
-- them: in units of the window, the codes of the longer lengths lie below those of the shorter.
module _ (first many : ℕ → ℕ) (top : ℕ)
    (paired : (i : ℕ) → 0 < i → i < top → first i * 2 ≡ first (suc i) + many (suc i)) (maxbits : ℕ)
    (inside : maxbits ≤ top) where
  pair_up :
      (l : ℕ)
      → 0 < l
      → suc l ≤ maxbits
      → (first (suc l) + many (suc l)) * 2 ^ (maxbits - suc l) ≡ first l * 2 ^ (maxbits - l)
  pair_up l pos h =
      let width : 2 ^ (maxbits - l) ≡ 2 * 2 ^ (maxbits - suc l) =
        ap (λ (t : ℕ). 2 ^ t) {x = maxbits - l} {y = 1 + (maxbits - suc l)} (omega arith)
        ∙ pow-add 1 (maxbits - suc l) in
      omega (
        arith,
        ap (λ (t : ℕ). first l * t) width,
        ap (λ (t : ℕ). t * 2 ^ (maxbits - suc l)) (paired l pos (omega arith)),
      )

  tiles :
      (m l : ℕ)
      → 0 < l
      → l ≤ m
      → suc m ≤ maxbits
      → (first (suc m) + many (suc m)) * 2 ^ (maxbits - suc m) ≤ first l * 2 ^ (maxbits - l)
  tiles zero l pos h below = absurd (omega arith)
  tiles (suc m) l pos h below = elim (ℕ_discrete l (suc m)) [
    | yes same ↦ rw same (omega (arith, pair_up (suc m) (omega arith) below))
    | no shorter ↦
        omega
          (arith, pair_up (suc m) (omega arith) below, tiles m l pos (omega arith) (omega arith))
  ]

  -- A code of a longer length lies below every code of a shorter one.
  longer_below :
      (window l m code shorter : ℕ)
      → 0 < l
      → l < m
      → m ≤ maxbits
      → window / 2 ^ (maxbits - m) ≡ code
      → code < first m + many m
      → window / 2 ^ (maxbits - l) ≡ shorter
      → first l ≤ shorter
      → ⊥
  longer_below window l zero code shorter pos h below e ec f fc = absurd (omega arith)
  longer_below window l (suc m) code shorter pos h below e ec f fc =
      let unit = 2 ^ (maxbits - suc m) in
      let end : window < code * unit + unit =
        subst (λ (t : ℕ). window < t * unit + unit) e
          (lt-div-mul-add (pow_pos (maxbits - suc m))) in
      let fits : suc code * unit ≤ (first (suc m) + many (suc m)) * unit =
        mul-le-mul_right unit ec in
      let start : shorter * 2 ^ (maxbits - l) ≤ window =
        subst (λ (t : ℕ). t * 2 ^ (maxbits - l) ≤ window) f
          (div-mul-le_self window (2 ^ (maxbits - l))) in
      let above : first l * 2 ^ (maxbits - l) ≤ shorter * 2 ^ (maxbits - l) =
        mul-le-mul_right (2 ^ (maxbits - l)) fc in
      omega (arith, tiles m l pos (omega arith) below)

-- What the assignment leaves: every node's code lies between the first code of its length and
-- the end of that length's codes, at its rank among them.
pub record IsCanonical (maxbits : ℕ) (nodes : List Node) : Type 0 where
  pub first : ℕ → ℕ
  pub few : (l : ℕ) → first l ≤ length nodes
  pub paired : (i : ℕ) → 0 < i → i < 32 → first i * 2 ≡ first (suc i) + count (suc i) nodes
  pub short : (c : ℕ) (v : Node) → get_elem? nodes c ≡ some v → v.numbits ≤ maxbits
  pub coded :
      (c : ℕ) (v : Node)
      → get_elem? nodes c ≡ some v
      → 0 < v.numbits
      → v.bits ≡ first v.numbits + rank v.numbits c nodes

module _ (maxbits : ℕ) (small : maxbits ≤ 32) (nodes : List Node)
    (k : IsCanonical maxbits nodes) where
  pub code-lt :
      (c : ℕ) (v : Node)
      → get_elem? nodes c ≡ some v
      → 0 < v.numbits
      → v.bits < k.first v.numbits + count v.numbits nodes
  code-lt c v e pos = omega (arith, k.coded c v e pos, rank-lt-count c nodes v e)

  same_length :
      (c j : ℕ) (v w : Node)
      → get_elem? nodes c ≡ some v
      → get_elem? nodes j ≡ some w
      → c < j
      → 0 < v.numbits
      → v.numbits ≡ w.numbits
      → v.bits ≡ w.bits
      → ⊥
  same_length c j v w e f h pos same equal =
      let at_w : w.bits ≡ k.first v.numbits + rank v.numbits j nodes =
        subst (λ (t : ℕ). w.bits ≡ k.first t + rank t j nodes) (sym same)
          (k.coded j w f (omega arith)) in
      omega (arith, at_w, k.coded c v e pos, rank-lt-rank c j nodes v e h)

  -- No window begins with the codes of two nodes.
  pub prefix_free :
      (c j : ℕ) (v w : Node) (window : ℕ)
      → get_elem? nodes c ≡ some v
      → get_elem? nodes j ≡ some w
      → c < j
      → 0 < v.numbits
      → 0 < w.numbits
      → Begins maxbits window v
      → Begins maxbits window w
      → ⊥
  prefix_free c j v w window e f h pv pw bv bw = elim (ℕ_discrete v.numbits w.numbits) [
    | yes same ↦
        same_length c j v w e f h pv same
          (sym bv ∙ ap (λ (t : ℕ). window / 2 ^ (maxbits - t)) same ∙ bw)
    | no differ ↦ elim (dec_lt v.numbits w.numbits) [
      | yes longer ↦
          longer_below k.first (λ i. count i nodes) 32 k.paired maxbits small window v.numbits
            w.numbits w.bits v.bits pv longer (k.short j w f) bw (code-lt j w f pw) bv
            (omega (arith, k.coded c v e pv))
      | no shorter ↦
          longer_below k.first (λ i. count i nodes) 32 k.paired maxbits small window w.numbits
            v.numbits v.bits w.bits pw (omega arith) (k.short c v e) bv (code-lt c v e pv) bw
            (omega (arith, k.coded j w f pw))
    ]
  ]
