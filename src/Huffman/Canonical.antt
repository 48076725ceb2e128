-- ===== src/Huffman/Canonical.antt =====
-- `huffman_assign_canonical_codes`: the codes of a length follow one another in the order of
-- their symbols, and the codes of the lengths tile the number line, longest first. So no code is
-- the beginning of another.
use libchdr.Prelude.{ℕ, zero, suc, ◌+◌, ◌^◌, ◌≤◌, ◌<◌, ◌≡◌, ap, refl, sym, ◌∙◌}
use libchdr.Prelude.{arith, List, [], ◌∷◌, get_or, set, length, get_or-set, length-set, ◌==◌}
use libchdr.Prelude.{if◌then◌else◌, some, get_elem?, u32, subst}
use native.Mathlib.Decide.{dec_lt}
use libchdr.Huffman.{Node, count_lengths, assign_codes}

-- The number of nodes with codes of length `l`, and how many of them come before index `c`.
abbrev pub one_if : ℕ → ℕ → ℕ
one_if a b = if a == b then 1 else 0

abbrev pub count : ℕ → List Node → ℕ
count l [] = 0
count l (node ∷ nodes) = one_if node.numbits l + count l nodes

abbrev pub rank : ℕ → ℕ → List Node → ℕ
rank l zero nodes = 0
rank l (suc c) [] = 0
rank l (suc c) (node ∷ nodes) = one_if node.numbits l + rank l c nodes

pub count-le-length : (l : ℕ) (nodes : List Node) → count l nodes ≤ length nodes
count-le-length l [] = omega arith
count-le-length l (node ∷ nodes) = ground (arith, count-le-length l nodes)

-- An earlier node of the same length has the smaller rank.
pub rank-lt-count :
    (c : ℕ) (nodes : List Node) (v : Node)
    → get_elem? nodes c ≡ some v
    → rank v.numbits c nodes < count v.numbits nodes
rank-lt-count c [] v e = cc
rank-lt-count zero (node ∷ nodes) v e = ground arith
rank-lt-count (suc c) (node ∷ nodes) v e = omega (arith, rank-lt-count c nodes v e)

pub rank-lt-rank :
    (c j : ℕ) (nodes : List Node) (v : Node)
    → get_elem? nodes c ≡ some v
    → c < j
    → rank v.numbits c nodes < rank v.numbits j nodes
rank-lt-rank c j [] v e h = cc
rank-lt-rank c zero (node ∷ nodes) v e h = absurd (omega arith)
rank-lt-rank zero (suc j) (node ∷ nodes) v e h = ground arith
rank-lt-rank (suc c) (suc j) (node ∷ nodes) v e h =
    omega (arith, rank-lt-rank c j nodes v e (omega arith))

-- A table of 33 counts that `n` steps cannot overflow.
pub record HasRoom (histo : List ℕ) (n : ℕ) : Type 0 where
  pub size : length histo ≡ 33
  pub room : (i : ℕ) → get_or histo i 0 + n < 2 ^ 32

-- `histo[l]++`
abbrev pub bump : List ℕ → ℕ → List ℕ
bump histo l = set histo l (u32 (get_or histo l 0 + 1))

module _ (histo : List ℕ) (n l : ℕ) (h : HasRoom histo (suc n)) (small : l ≤ 32) where
  get_or-bump : (i : ℕ) → get_or (bump histo l) i 0 ≡ get_or histo i 0 + one_if l i
  get_or-bump i =
      ground (arith, h.size, h.room l, get_or-set histo l (u32 (get_or histo l 0 + 1)) i 0)

  bump-HasRoom : HasRoom (bump histo l) n
  bump-HasRoom = record {
    size = length-set histo l (u32 (get_or histo l 0 + 1)) ∙ h.size;
    room = λ i. ground (arith, h.room i, get_or-bump i);
  }

HasRoom-weaken : (histo : List ℕ) (n : ℕ) → HasRoom histo (suc n) → HasRoom histo n
HasRoom-weaken histo n h = record { size = h.size; room = λ i. omega (arith, h.room i) }

-- The histogram adds the counts, and no length is above `maxbits`.
count_lengths-cons :
    (maxbits : ℕ) (node : Node) (nodes : List Node) (histo out : List ℕ)
    → maxbits ≤ 32
    → count_lengths maxbits (node ∷ nodes) histo ≡ some out
    → (node.numbits ≤ maxbits) × (count_lengths maxbits nodes (bump histo node.numbits) ≡ some out)
unfolding count_lengths
count_lengths-cons maxbits node nodes histo out small e = ground arith

pub count_lengths-le :
    (maxbits : ℕ) (nodes : List Node) (histo out : List ℕ)
    → maxbits ≤ 32
    → count_lengths maxbits nodes histo ≡ some out
    → (c : ℕ) (v : Node) → get_elem? nodes c ≡ some v
    → v.numbits ≤ maxbits
count_lengths-le maxbits [] histo out small e c v h = cc
count_lengths-le maxbits (node ∷ nodes) histo out small e zero v h =
    ground (arith, count_lengths-cons maxbits node nodes histo out small e)
count_lengths-le maxbits (node ∷ nodes) histo out small e (suc c) v h =
    let r = count_lengths-cons maxbits node nodes histo out small e in
    count_lengths-le maxbits nodes (bump histo node.numbits) out small r.1 c v h

pub count_lengths-HasCounts :
    (maxbits : ℕ) (nodes : List Node) (histo out : List ℕ)
    → maxbits ≤ 32
    → HasRoom histo (length nodes)
    → count_lengths maxbits nodes histo ≡ some out
    → HasRoom out 0 × ((i : ℕ) → get_or out i 0 ≡ get_or histo i 0 + count i nodes)
unfolding count_lengths
count_lengths-HasCounts maxbits [] histo out small h e =
    let same : histo ≡ out = cc in
    (subst (λ (t : List ℕ). HasRoom t 0) same h, λ i. rw (← same) (omega arith))
count_lengths-HasCounts maxbits (node ∷ nodes) histo out small h e =
    let r = count_lengths-cons maxbits node nodes histo out small e in
    let below : node.numbits ≤ 32 = omega (arith, r.0) in
    let rest =
      count_lengths-HasCounts maxbits nodes (bump histo node.numbits) out small
        (bump-HasRoom histo (length nodes) node.numbits h below) r.1 in
    (rest.0, λ i. omega (arith, rest.1 i, get_or-bump histo (length nodes) node.numbits h below i))

-- A node's code is the first code of its length and the number of such nodes before it.
module _ (histo : List ℕ) (node : Node) (nodes : List Node) where
  assign_codes-coded :
      0 < node.numbits
      → assign_codes histo (node ∷ nodes)
        ≡ record node { bits = get_or histo node.numbits 0 }
          ∷ assign_codes (bump histo node.numbits) nodes
  unfolding assign_codes
  assign_codes-coded h = ground arith

  assign_codes-unused :
      node.numbits ≡ 0 → assign_codes histo (node ∷ nodes) ≡ node ∷ assign_codes histo nodes
  unfolding assign_codes
  assign_codes-unused h = ground arith

-- What one node of a list with assigned codes satisfies; `histo` holds the codes to be given.
abbrev pub IsCode : List ℕ → List Node → ℕ → Node → Type 0
IsCode histo nodes c v =
    get_elem? nodes c ≡ some v
    → 0 < v.numbits
    → v.bits ≡ get_or histo v.numbits 0 + rank v.numbits c nodes

coded-IsCode :
    (histo : List ℕ) (node : Node) (rest : List Node) (c : ℕ) (v : Node)
    → HasRoom histo (suc (length rest))
    → node.numbits ≤ 32
    → ((k : ℕ) → IsCode (bump histo node.numbits) rest k v)
    → IsCode histo (record node { bits = get_or histo node.numbits 0 } ∷ rest) c v
coded-IsCode histo node rest zero v h small ih e pos = ground arith
coded-IsCode histo node rest (suc c) v h small ih e pos =
    omega (arith, ih c e pos, get_or-bump histo (length rest) node.numbits h small v.numbits)

unused-IsCode :
    (histo : List ℕ) (node : Node) (rest : List Node) (c : ℕ) (v : Node)
    → node.numbits ≡ 0
    → ((k : ℕ) → IsCode histo rest k v)
    → IsCode histo (node ∷ rest) c v
unused-IsCode histo node rest zero v none_used ih e pos =
    let same : node.numbits ≡ v.numbits = cc in absurd (omega arith)
unused-IsCode histo node rest (suc c) v none_used ih e pos = ground (arith, ih c e pos)

pub length-assign_codes :
    (histo : List ℕ) (nodes : List Node) → length (assign_codes histo nodes) ≡ length nodes
unfolding assign_codes
length-assign_codes histo [] = refl
length-assign_codes histo (node ∷ nodes) =
    ground
      (arith, length-assign_codes (bump histo node.numbits) nodes, length-assign_codes histo nodes)

pub assign_codes-IsCode :
    (histo : List ℕ) (nodes : List Node) (c : ℕ) (v : Node)
    → HasRoom histo (length nodes)
    → ((j : ℕ) (w : Node) → get_elem? nodes j ≡ some w → w.numbits ≤ 32)
    → IsCode histo (assign_codes histo nodes) c v
unfolding assign_codes
assign_codes-IsCode histo [] c v h small = λ e pos. cc
assign_codes-IsCode histo (node ∷ nodes) c v h small = elim (dec_lt 0 node.numbits) [
  | yes coded ↦
      let below : node.numbits ≤ 32 = small 0 node refl in
      let next = bump histo node.numbits in
      let room = bump-HasRoom histo (length nodes) node.numbits h below in
      rw (assign_codes-coded histo node nodes coded) (
        coded-IsCode histo node (assign_codes next nodes) c v
          (subst (λ (t : ℕ). HasRoom histo (suc t)) (sym (length-assign_codes next nodes)) h) below
          (λ k. assign_codes-IsCode next nodes k v room (λ j. small (suc j))))
  | no unused ↦ rw (assign_codes-unused histo node nodes (omega arith)) (
      unused-IsCode histo node (assign_codes histo nodes) c v (omega arith) (λ k.
        assign_codes-IsCode histo nodes k v (HasRoom-weaken histo (length nodes) h)
          (λ j. small (suc j))))
]

-- Assigning the codes keeps the lengths.
pub count-assign_codes :
    (l : ℕ) (histo : List ℕ) (nodes : List Node)
    → count l (assign_codes histo nodes) ≡ count l nodes
unfolding assign_codes
count-assign_codes l histo [] = refl
count-assign_codes l histo (node ∷ nodes) =
    ground (
      arith,
      count-assign_codes l (bump histo node.numbits) nodes,
      count-assign_codes l histo nodes,
    )

pub assign_codes-numbits :
    (histo : List ℕ) (nodes : List Node) (c : ℕ) (v : Node)
    → get_elem? (assign_codes histo nodes) c ≡ some v
    → (w : Node) × (get_elem? nodes c ≡ some w) × (w.numbits ≡ v.numbits)
unfolding assign_codes
assign_codes-numbits histo [] c v e = cc
assign_codes-numbits histo (node ∷ nodes) zero v e = (node, refl, ground arith)
assign_codes-numbits histo (node ∷ nodes) (suc c) v e = elim (dec_lt 0 node.numbits) [
  | yes coded ↦
      let step =
        ap (λ (t : List Node). get_elem? t (suc c)) (assign_codes-coded histo node nodes coded) in
      assign_codes-numbits (bump histo node.numbits) nodes c v (sym step ∙ e)
  | no unused ↦
      let step =
        ap (λ (t : List Node). get_elem? t (suc c))
          (assign_codes-unused histo node nodes (omega arith)) in
      assign_codes-numbits histo nodes c v (sym step ∙ e)
]
