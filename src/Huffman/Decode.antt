-- ===== src/Huffman/Decode.antt =====
-- `huffman_decode_one` on a decoder whose codes were assigned and whose table was built.
use libchdr.Prelude.{ℕ, ◌+◌, ◌-◌, ◌*◌, ◌/◌, ◌^◌, ◌≤◌, ◌<◌, ◌≡◌, refl, ap, sym, ◌∙◌}
use libchdr.Prelude.{
  arith, List, get_or, length, get_elem?, get_elem?-lt, some, u16, ◌<<<◌, ◌>>>◌, bit_and, bit_or,
  subst,
}
use libchdr.Prelude.Bits.{bit_or-fields, bit_and-mask}
use libchdr.Prelude.Pow.{pow_mono}
use native.Mathlib.Nat.{mul-le-mul}
use libchdr.Bitstream.{Bitstream, bitstream_peek}
use libchdr.Bitstream.Spec.{bits_at, bits_at-div}
use libchdr.Bitstream.Refine.{IsAt, IsBytes, max_position, peek_remove-IsAt}
use libchdr.Huffman.{
  Node, HuffmanDecoder, HuffmanError, no_error, make_lookup, build_lookup, huffman_decode_one,
}
use libchdr.Huffman.{huffman_assign_canonical_codes, huffman_build_lookup_table}
use libchdr.Huffman.Canonical.{count-le-length}
use libchdr.Huffman.PrefixFree.{Begins, IsCanonical, prefix_free, code-lt}
use libchdr.Huffman.Assign.{IsAssigned, assign-IsAssigned}
use libchdr.Huffman.Table.{build_lookup-entry, AllFit32}

-- The two fields of a table entry.
make_lookup_fields :
    (code bits : ℕ)
    → code < 2048
    → bits < 32
    → (make_lookup code bits >>> 5 ≡ code) × (bit_and (make_lookup code bits) 0x1f ≡ bits)
unfolding make_lookup
make_lookup_fields code bits hc hb =
    let low : bit_and bits 0x1f ≡ bits = bit_and-mask 5 bits ∙ omega arith in
    let entry : u16 (bit_or (code <<< 5) (bit_and bits 0x1f)) ≡ code * 32 + bits =
      rw (low, bit_or-fields 5 code bits hb) (omega arith) in
    rw entry (omega arith, bit_and-mask 5 (code * 32 + bits) ∙ omega arith)

-- The sizes with which the library makes its decoders: (16, 8), (24, 6) and (256, 16).
pub record IsSized (d : HuffmanDecoder) : Type 0 where
  pub narrow : d.maxbits ≤ 16
  pub few : length d.huffnode ≤ 2048
  pub table : length d.lookup ≡ 2 ^ d.maxbits

canonical-AllFit32 :
    (maxbits : ℕ) (nodes : List Node)
    → maxbits ≤ 16
    → length nodes ≤ 2048
    → IsCanonical maxbits nodes
    → AllFit32 maxbits nodes
canonical-AllFit32 maxbits nodes narrow few k j w at_j pos =
    let code : w.bits + 1 ≤ 4096 = omega (
      arith,
      code-lt maxbits (omega arith) nodes k j w at_j pos,
      k.few w.numbits,
      count-le-length w.numbits nodes,
    ) in
    omega (arith, mul-le-mul code (pow_mono (maxbits - w.numbits) 16 (omega arith)))

-- What a successful `huffman_build_lookup_table` returns.
pub built :
    (d d' : HuffmanDecoder)
    → huffman_build_lookup_table d ≡ (no_error, d')
    → (build_lookup d.maxbits 0 d.huffnode d.lookup ≡ (no_error, d'.lookup))
      × (d'.huffnode ≡ d.huffnode)
      × (d'.maxbits ≡ d.maxbits)
unfolding huffman_build_lookup_table
built d d' e =
    let error : (build_lookup d.maxbits 0 d.huffnode d.lookup).0 ≡ no_error =
      ap (λ (r : HuffmanError × HuffmanDecoder). r.0) e in
    let table : (build_lookup d.maxbits 0 d.huffnode d.lookup).1 ≡ d'.lookup =
      ap (λ (r : HuffmanError × HuffmanDecoder). r.1.lookup) e in
    (
      λ i. (error i, table i),
      sym (ap (λ (r : HuffmanError × HuffmanDecoder). r.1.huffnode) e),
      sym (ap (λ (r : HuffmanError × HuffmanDecoder). r.1.maxbits) e),
    )

module _ (d d' d'' : HuffmanDecoder) (sized : IsSized d)
    (assign : huffman_assign_canonical_codes d ≡ (no_error, d'))
    (build : huffman_build_lookup_table d' ≡ (no_error, d'')) where
  done : IsAssigned d d'
  done = assign-IsAssigned d d' (omega (arith, sized.narrow)) (omega (arith, sized.few)) assign

  few_nodes : length d'.huffnode ≤ 2048
  few_nodes = omega (arith, done.same_size, sized.few)

  same_width : d''.maxbits ≡ d.maxbits
  same_width = (built d' d'' build).2 ∙ done.same_maxbits

  -- The table of a decoder whose calls succeeded holds, for a window that begins with the code
  -- of a symbol, that symbol and the length of its code.
  pub table-entry :
      (c : ℕ) (v : Node) (window : ℕ)
      → get_elem? d''.huffnode c ≡ some v
      → 0 < v.numbits
      → Begins d.maxbits window v
      → get_or d''.lookup window 0 ≡ make_lookup c v.numbits
  table-entry c v window at_c pos begins =
      let (table, nodes, width) = built d' d'' build in
      let at_c' : get_elem? d'.huffnode c ≡ some v =
        subst (λ (ns : List Node). get_elem? ns c ≡ some v) nodes at_c in
      let table' : build_lookup d.maxbits 0 d'.huffnode d'.lookup ≡ (no_error, d''.lookup) =
        subst (λ (m : ℕ). build_lookup m 0 d'.huffnode d'.lookup ≡ (no_error, d''.lookup))
          done.same_maxbits table in
      build_lookup-entry d.maxbits window 0 d'.huffnode d'.lookup d''.lookup c v
        (ap length done.same_lookup ∙ sized.table)
        (canonical-AllFit32 d.maxbits d'.huffnode sized.narrow few_nodes done.canonical)
        (λ j w at_j h pw both.
          prefix_free d.maxbits (omega (arith, sized.narrow)) d'.huffnode done.canonical c j v w
            window at_c' at_j h pos pw begins both)
        table' at_c' pos begins
      ∙ ap (λ (k : ℕ). make_lookup k v.numbits) (omega arith)

  -- The code of symbol `c` in the input decodes to `c`: where the bits from position `p` on
  -- start with the code of symbol `c`, `huffman_decode_one` returns `c` and consumes exactly the
  -- bits of its code. The decoder has at most 2048 symbols and codes of at most 16 bits, as all
  -- of the library's have, and its codes and its table were made without an error.
  pub decode_one-code :
      (src : List ℕ) (len : ℕ) (s : Bitstream) (p c : ℕ) (v : Node)
      → IsBytes src
      → IsAt src len s p
      → p ≤ max_position
      → get_elem? d''.huffnode c ≡ some v
      → 0 < v.numbits
      → bits_at src len p v.numbits ≡ v.bits
      → ((huffman_decode_one d'' s).0 ≡ c)
        × IsAt src len (huffman_decode_one d'' s).1 (p + v.numbits)
  unfolding huffman_decode_one
  decode_one-code src len s p c v bytes at_p room at_c pos starts =
      let l = v.numbits in
      let at_c' : get_elem? d'.huffnode c ≡ some v =
        subst (λ (ns : List Node). get_elem? ns c ≡ some v) (built d' d'' build).1 at_c in
      let short : l ≤ d.maxbits = done.canonical.short c v at_c' in
      let few : c < 2048 = omega (arith, get_elem?-lt d'.huffnode c v at_c', few_nodes) in
      let peeked =
        peek_remove-IsAt src len bytes s p d.maxbits l at_p (omega (arith, sized.narrow)) room
          short in
      let window : Begins d.maxbits (bitstream_peek s d.maxbits).0 v =
        ap (λ (w : ℕ). w / 2 ^ (d.maxbits - l))
          (peeked.0
            ∙ ap (bits_at src len p) {x = d.maxbits} {y = l + (d.maxbits - l)} (omega arith))
        ∙ bits_at-div src len p l (d.maxbits - l)
        ∙ starts in
      let entry = table-entry c v (bitstream_peek s d.maxbits).0 at_c pos window in
      let (code, width) = make_lookup_fields c l few (omega (arith, sized.narrow)) in
      rw (same_width, entry, code, width) (refl, peeked.1)
