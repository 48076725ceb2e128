-- ===== src/Huffman/Table.antt =====
-- `huffman_build_lookup_table`: a window's entry is the last written one whose code begins it.
use libchdr.Prelude.{ℕ, zero, suc, ◌+◌, ◌-◌, ◌*◌, ◌^◌, ◌≤◌, ◌<◌, ◌≡◌, refl, ap, sym, ◌∙◌}
use libchdr.Prelude.{arith, List, [], ◌∷◌, get_or, set, length, get_elem?, get_or-set, length-set}
use libchdr.Prelude.{some, u32, ◌⊎◌, inl, inr, subst, ap₂, ◌<<<◌}
use libchdr.Prelude.Pow.{pow_pos}
use native.Mathlib.Nat.{mul-le-mul_left, lt-div-mul-add, div-mul-le_self, div-eq_of_lt-le}
use native.Mathlib.Decide.{dec_lt}
use libchdr.Huffman.{Node, no_error, fill, build_lookup}
use libchdr.Huffman.{make_lookup}
use libchdr.Huffman.PrefixFree.{Begins}

pub length-fill : (n dest value : ℕ) (t : List ℕ) → length (fill n dest value t) ≡ length t
unfolding fill
length-fill zero dest value t = refl
length-fill (suc n) dest value t =
    length-fill n (dest + 1) value (set t dest value) ∙ length-set t dest value

-- The loop writes nothing outside its range, and everything in it.
fill-outside :
    (n dest value : ℕ) (t : List ℕ) (i : ℕ)
    → dest + n ≤ length t
    → (i < dest) ⊎ (dest + n ≤ i)
    → get_or (fill n dest value t) i 0 ≡ get_or t i 0
unfolding fill
fill-outside zero dest value t i fits h = refl
fill-outside (suc n) dest value t i fits h = ground (
  arith,
  length-set t dest value,
  get_or-set t dest value i 0,
  fill-outside n (dest + 1) value (set t dest value) i,
)

fill-inside :
    (n dest value : ℕ) (t : List ℕ) (i : ℕ)
    → dest + n ≤ length t
    → dest ≤ i
    → i < dest + n
    → get_or (fill n dest value t) i 0 ≡ value
unfolding fill
fill-inside zero dest value t i fits h k = absurd (omega arith)
fill-inside (suc n) dest value t i fits h k = ground (
  arith,
  length-set t dest value,
  get_or-set t dest value i 0,
  fill-outside n (dest + 1) value (set t dest value) i,
  fill-inside n (dest + 1) value (set t dest value) i,
)

-- The number of entries of a node, and that its last entry's index does not wrap.
abbrev pub span : ℕ → Node → ℕ
span maxbits node = 2 ^ (maxbits - node.numbits)

abbrev pub Fits32 : ℕ → Node → Type 0
Fits32 maxbits node = (node.bits + 1) * span maxbits node < 2 ^ 32

module _ (maxbits code : ℕ) (node : Node) (nodes : List Node) (t out : List ℕ)
    (e : build_lookup maxbits code (node ∷ nodes) t ≡ (no_error, out)) where
  build_lookup-unused : node.numbits ≡ 0 → build_lookup maxbits (code + 1) nodes t ≡ (no_error, out)
  unfolding build_lookup
  build_lookup-unused h = ground arith

  build_lookup-coded :
      0 < node.numbits
      → Fits32 maxbits node
      → ((node.bits + 1) * span maxbits node ≤ 2 ^ maxbits)
        × (build_lookup maxbits (code + 1) nodes (
              fill
                (span maxbits node)
                (node.bits * span maxbits node)
                (make_lookup code node.numbits)
                t)
            ≡ (no_error, out))
  unfolding build_lookup
  build_lookup-coded h fits =
      let unit = span maxbits node in
      let pos : 0 < unit = pow_pos (maxbits - node.numbits) in
      let grows : (node.bits + 1) * 1 ≤ (node.bits + 1) * unit =
        mul-le-mul_left (node.bits + 1) pos in
      let small : u32 (node.bits + 1) ≡ node.bits + 1 = omega arith in
      let first : u32 (node.bits <<< (maxbits - node.numbits)) ≡ node.bits * unit = omega arith in
      let last : u32 (u32 (node.bits + 1) <<< (maxbits - node.numbits) + 2 ^ 32 - 1)
          ≡ (node.bits + 1) * unit - 1 =
        rw small (omega arith) in
      let many : (node.bits + 1) * unit - 1 - node.bits * unit + 1 ≡ unit = omega arith in
      ground (arith, small, first, last, many)

  build_lookup-fits :
      0 < node.numbits → Fits32 maxbits node → (node.bits + 1) * span maxbits node ≤ 2 ^ maxbits
  build_lookup-fits h fits = (build_lookup-coded h fits).0

-- The nodes' entries can be computed in 32 bits.
abbrev pub AllFit32 : ℕ → List Node → Type 0
AllFit32 maxbits nodes =
    (j : ℕ) (w : Node) → get_elem? nodes j ≡ some w → 0 < w.numbits → Fits32 maxbits w

-- No node's code begins the window.
abbrev pub NoneBegins : ℕ → ℕ → List Node → Type 0
NoneBegins maxbits window nodes =
    (j : ℕ) (w : Node) → get_elem? nodes j ≡ some w → 0 < w.numbits → ¬ (Begins maxbits window w)

-- A window outside a node's entries does not begin with its code.
outside_of_not-Begins :
    (maxbits window : ℕ) (v : Node)
    → ¬ (Begins maxbits window v)
    → (window < v.bits * span maxbits v) ⊎ (v.bits * span maxbits v + span maxbits v ≤ window)
outside_of_not-Begins maxbits window v h = elim (dec_lt window (v.bits * span maxbits v)) [
  | yes below ↦ inl below
  | no above ↦ elim (dec_lt window (v.bits * span maxbits v + span maxbits v)) [
    | yes inside ↦ absurd (h (div-eq_of_lt-le (span maxbits v) (omega arith) (omega arith)))
    | no past ↦ inr (omega arith)
  ]
]

module _ (maxbits window : ℕ) where
  build_lookup-untouched :
      (code : ℕ) (nodes : List Node) (t out : List ℕ)
      → length t ≡ 2 ^ maxbits
      → AllFit32 maxbits nodes
      → NoneBegins maxbits window nodes
      → build_lookup maxbits code nodes t ≡ (no_error, out)
      → get_or out window 0 ≡ get_or t window 0
  unfolding build_lookup
  build_lookup-untouched code [] t out size fits free e = let same : t ≡ out = cc in rw same refl
  build_lookup-untouched code (node ∷ nodes) t out size fits free e = elim (dec_lt 0 node.numbits) [
    | yes coded ↦
        let step =
          build_lookup-coded maxbits code node nodes t out e coded (fits 0 node refl coded) in
        let unit = span maxbits node in
        let filled = fill unit (node.bits * unit) (make_lookup code node.numbits) t in
        build_lookup-untouched (code + 1) nodes filled out
          (length-fill unit (node.bits * unit) (make_lookup code node.numbits) t ∙ size)
          (λ j. fits (suc j)) (λ j. free (suc j)) step.1
        ∙ fill-outside unit (node.bits * unit) (make_lookup code node.numbits) t window
            (omega (arith, step.0))
            (outside_of_not-Begins maxbits window node (free 0 node refl coded))
    | no unused ↦
        build_lookup-untouched (code + 1) nodes t out size (λ j. fits (suc j)) (λ j. free (suc j))
          (build_lookup-unused maxbits code node nodes t out e (omega arith))
  ]

  -- The first node's entries stay if no later code begins the window.
  first_entry :
      (code : ℕ) (node : Node) (nodes : List Node) (t out : List ℕ)
      → length t ≡ 2 ^ maxbits
      → AllFit32 maxbits (node ∷ nodes)
      → NoneBegins maxbits window nodes
      → build_lookup maxbits code (node ∷ nodes) t ≡ (no_error, out)
      → 0 < node.numbits
      → Begins maxbits window node
      → get_or out window 0 ≡ make_lookup code node.numbits
  first_entry code node nodes t out size fits free e coded begins =
      let step =
        build_lookup-coded maxbits code node nodes t out e coded (fits 0 node refl coded) in
      let unit = span maxbits node in
      let value = make_lookup code node.numbits in
      let start : node.bits * unit ≤ window =
        subst (λ (b : ℕ). b * unit ≤ window) begins (div-mul-le_self window unit) in
      let end : window < node.bits * unit + unit =
        subst (λ (b : ℕ). window < b * unit + unit) begins
          (lt-div-mul-add (pow_pos (maxbits - node.numbits))) in
      build_lookup-untouched (code + 1) nodes (fill unit (node.bits * unit) value t) out
        (length-fill unit (node.bits * unit) value t ∙ size) (λ j. fits (suc j)) free step.1
      ∙ fill-inside unit (node.bits * unit) value t window (omega (arith, step.0)) start end

  -- The rest of the loop, after the first node.
  rest_of_loop :
      (code : ℕ) (node : Node) (nodes : List Node) (t out : List ℕ)
      → length t ≡ 2 ^ maxbits
      → AllFit32 maxbits (node ∷ nodes)
      → build_lookup maxbits code (node ∷ nodes) t ≡ (no_error, out)
      → (t' : List ℕ) × (length t' ≡ 2 ^ maxbits)
        × (build_lookup maxbits (code + 1) nodes t' ≡ (no_error, out))
  rest_of_loop code node nodes t out size fits e = elim (dec_lt 0 node.numbits) [
    | yes coded ↦
        let step =
          build_lookup-coded maxbits code node nodes t out e coded (fits 0 node refl coded) in
        let unit = span maxbits node in
        let value = make_lookup code node.numbits in
        (
          fill unit (node.bits * unit) value t,
          length-fill unit (node.bits * unit) value t ∙ size,
          step.1,
        )
    | no unused ↦ (t, size, build_lookup-unused maxbits code node nodes t out e (omega arith))
  ]

  -- The entry of a window that begins with one code and with no later one.
  pub build_lookup-entry :
      (code : ℕ) (nodes : List Node) (t out : List ℕ) (c : ℕ) (v : Node)
      → length t ≡ 2 ^ maxbits
      → AllFit32 maxbits nodes
      → ((j : ℕ) (w : Node)
          → get_elem? nodes j ≡ some w
          → c < j
          → 0 < w.numbits
          → ¬ (Begins maxbits window w))
      → build_lookup maxbits code nodes t ≡ (no_error, out)
      → get_elem? nodes c ≡ some v
      → 0 < v.numbits
      → Begins maxbits window v
      → get_or out window 0 ≡ make_lookup (code + c) v.numbits
  build_lookup-entry code [] t out c v size fits free e at_c pos begins = cc
  build_lookup-entry code (node ∷ nodes) t out zero v size fits free e at_c pos begins =
      let same : v ≡ node = cc in
      let coded : 0 < node.numbits = subst (λ (u : Node). 0 < u.numbits) same pos in
      let starts : Begins maxbits window node = subst (Begins maxbits window) same begins in
      first_entry code node nodes t out size fits (λ j w at_j. free (suc j) w at_j (omega arith)) e
        coded starts
      ∙ ap₂ make_lookup {y = code + 0} (omega arith) (ap (λ (u : Node). u.numbits) (sym same))
  build_lookup-entry code (node ∷ nodes) t out (suc c) v size fits free e at_c pos begins =
      let (t', size', rest) = rest_of_loop code node nodes t out size fits e in
      build_lookup-entry (code + 1) nodes t' out c v size' (λ j. fits (suc j))
        (λ j w at_j h. free (suc j) w at_j (omega arith)) rest at_c pos begins
      ∙ ap (λ (k : ℕ). make_lookup k v.numbits) (omega arith)
