-- ===== src/Huffman/Assign.antt =====
-- `huffman_assign_canonical_codes` as a whole: what its success gives.
use libchdr.Prelude.{ℕ, zero, suc, ◌^◌, ◌≤◌, ◌<◌, ◌≡◌, refl, sym, arith, List, get_or}
use libchdr.Prelude.{length, get_elem?, some, subst, Option-cases, inl, inr}
use libchdr.Huffman.{Node, HuffmanDecoder, no_error}
use libchdr.Huffman.{
  count_lengths, start_codes, assign_codes, zeros, huffman_assign_canonical_codes,
}
use libchdr.Huffman.Canonical.{count, count-le-length, HasRoom, length-assign_codes}
use libchdr.Huffman.Canonical.{count_lengths-HasCounts, count_lengths-le, assign_codes-IsCode}
use libchdr.Huffman.Canonical.{count-assign_codes, assign_codes-numbits}
use libchdr.Huffman.Starts.{IsBounded, IsStarted, start_codes-IsStarted}
use libchdr.Huffman.PrefixFree.{IsCanonical, prefix_free, Begins}

-- The three loops of a successful call.
assigned :
    (d d' : HuffmanDecoder)
    → huffman_assign_canonical_codes d ≡ (no_error, d')
    → (counts : List ℕ) × (starts : List ℕ) × (count_lengths d.maxbits d.huffnode (zeros 33)
        ≡ some counts)
      × (start_codes 32 0 counts ≡ some starts)
      × (d' ≡ record d { huffnode = assign_codes starts d.huffnode })
unfolding huffman_assign_canonical_codes
assigned d d' e = elim (Option-cases (count_lengths d.maxbits d.huffnode (zeros 33))) [
  | inl failed ↦ cc (rw (failed, huffman_assign_canonical_codes) at e)
  | inr (counts, e1) ↦ elim (Option-cases (start_codes 32 0 counts)) [
    | inl failed ↦ cc (rw (e1, huffman_assign_canonical_codes, failed) at e)
    | inr (starts, e2) ↦
        (counts, starts, e1, e2, cc (rw (e1, huffman_assign_canonical_codes, e2) at e))
  ]
]

get_or-zeros : (k i : ℕ) → get_or (zeros k) i 0 ≡ 0
unfolding zeros
get_or-zeros zero i = refl
get_or-zeros (suc k) zero = refl
get_or-zeros (suc k) (suc i) = get_or-zeros k i

zeros-HasRoom : (n : ℕ) → n < 2 ^ 31 → HasRoom (zeros 33) n
zeros-HasRoom n h = record {
  size = unfold zeros in refl;
  room = λ i. omega (arith, get_or-zeros 33 i);
}

-- What a successful call leaves in the decoder: canonical codes, at the lengths that it found;
-- all else is as it was.
pub record IsAssigned (d d' : HuffmanDecoder) : Type 0 where
  pub canonical : IsCanonical d.maxbits d'.huffnode
  pub same_size : length d'.huffnode ≡ length d.huffnode
  pub same_lengths :
      (c : ℕ) (v : Node)
      → get_elem? d'.huffnode c ≡ some v
      → (w : Node) × (get_elem? d.huffnode c ≡ some w) × (w.numbits ≡ v.numbits)
  pub same_maxbits : d'.maxbits ≡ d.maxbits
  pub same_lookup : d'.lookup ≡ d.lookup

module _ (maxbits : ℕ) (small : maxbits ≤ 32) (nodes : List Node) (few : length nodes < 2 ^ 31)
    (counts starts : List ℕ) (counted : count_lengths maxbits nodes (zeros 33) ≡ some counts)
    (started : start_codes 32 0 counts ≡ some starts) where
  counts-eq : (i : ℕ) → get_or counts i 0 ≡ count i nodes
  counts-eq i = omega (
    arith,
    (count_lengths-HasCounts maxbits nodes (zeros 33) counts small
          (zeros-HasRoom (length nodes) few) counted).1
        i,
    get_or-zeros 33 i,
  )

  counts-IsBounded : IsBounded (length nodes) counts
  counts-IsBounded = record {
    size =
        (count_lengths-HasCounts maxbits nodes (zeros 33) counts small
          (zeros-HasRoom (length nodes) few) counted).0.size;
    bound = λ i. omega (arith, counts-eq i, count-le-length i nodes);
  }

  starts-IsStarted : IsStarted (length nodes) 32 0 counts starts
  starts-IsStarted =
      start_codes-IsStarted (length nodes) few 32 0 counts starts (omega arith) (omega arith)
        counts-IsBounded started

  assign_codes-IsCanonical : IsCanonical maxbits (assign_codes starts nodes)
  assign_codes-IsCanonical = record {
    first = λ l. get_or starts l 0;
    few = λ l. omega (arith, starts-IsStarted.bounded.bound l, length-assign_codes starts nodes);
    paired = λ i pos h. omega (
      arith,
      starts-IsStarted.paired i pos h,
      counts-eq (suc i),
      count-assign_codes (suc i) starts nodes,
    );
    short = λ c v e.
        let (w, at_w, same) = assign_codes-numbits starts nodes c v e in
        omega (arith, count_lengths-le maxbits nodes (zeros 33) counts small counted c w at_w);
    coded = λ c v e pos.
        assign_codes-IsCode starts nodes c v
          (record {
            size = starts-IsStarted.bounded.size;
            room = λ i. omega (arith, starts-IsStarted.bounded.bound i);
          })
          (λ j w at_w.
            omega (arith, count_lengths-le maxbits nodes (zeros 33) counts small counted j w at_w))
          e pos;
  }

-- Success means canonical codes.
pub assign-IsAssigned :
    (d d' : HuffmanDecoder)
    → d.maxbits ≤ 32
    → length d.huffnode < 2 ^ 31
    → huffman_assign_canonical_codes d ≡ (no_error, d')
    → IsAssigned d d'
assign-IsAssigned d d' small few e =
    let (counts, starts, counted, started, result) = assigned d d' e in
    subst (IsAssigned d) (sym result) (record {
      canonical =
          assign_codes-IsCanonical d.maxbits small d.huffnode few counts starts counted started;
      same_size = length-assign_codes starts d.huffnode;
      same_lengths = assign_codes-numbits starts d.huffnode;
      same_maxbits = refl;
      same_lookup = refl;
    })

-- If the call succeeds, no window of `maxbits` bits begins with the codes of two different
-- symbols.
pub assign-prefix_free :
    (d d' : HuffmanDecoder) (c j : ℕ) (v w : Node) (window : ℕ)
    → d.maxbits ≤ 32
    → length d.huffnode < 2 ^ 31
    → huffman_assign_canonical_codes d ≡ (no_error, d')
    → get_elem? d'.huffnode c ≡ some v
    → get_elem? d'.huffnode j ≡ some w
    → c < j
    → 0 < v.numbits
    → 0 < w.numbits
    → ¬ (Begins d.maxbits window v × Begins d.maxbits window w)
assign-prefix_free d d' c j v w window small few e at_c at_j h pv pw both =
    prefix_free d.maxbits small d'.huffnode (assign-IsAssigned d d' small few e).canonical c j v w
      window at_c at_j h pv pw both.0 both.1
