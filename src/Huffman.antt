-- ===== src/Huffman.antt =====
-- The decoder of src/libchdr_huffman.c, in the build with the full lookup table (LOWRAM_TARGET
-- is 0). What `malloc` returns holds unknown values: they are an argument of the constructor. A
-- function that changes the decoder returns it beside its error code.
pub mod Import
pub mod Canonical
pub mod Starts
pub mod PrefixFree
pub mod Assign
pub mod Table
pub mod Decode
mod Tests
use libchdr.Prelude.{ℕ, zero, suc, ◌+◌, ◌-◌, ◌*◌, ◌^◌, bit_and, bit_or, u16, u32, ◌<<<◌, ◌>>>◌}
use libchdr.Prelude.{List, [], ◌∷◌, get_or, set, Bool, true, false, ltb, leb, ◌==◌, ◌&&◌, ◌||◌, not}
use libchdr.Prelude.{if◌then◌else◌, Option, none, some}
use libchdr.Bitstream.{Bitstream, bitstream_peek, bitstream_remove}

-- `enum huffman_error`
pub data HuffmanError : Type 0 where
  no_error too_many_bits invalid_data input_buffer_too_small : HuffmanError
  output_buffer_too_small internal_inconsistency too_many_contexts : HuffmanError

-- `struct node_t`; the parent is an index into the array of nodes.
pub record Node : Type 0 where
  pub parent : Option ℕ
  pub count : ℕ
  pub weight : ℕ
  pub bits : ℕ
  pub numbits : ℕ

-- `struct huffman_decoder`
pub record HuffmanDecoder : Type 0 where
  pub numcodes : ℕ
  pub maxbits : ℕ
  pub prevdata : ℕ
  pub rleremaining : ℕ
  pub lookup : List ℕ
  pub huffnode : List Node
  pub datahisto : Option (List ℕ)

-- The two lists are the memory that `malloc` returns, `1 << maxbits` entries and `numcodes` nodes.
unfoldable pub create_huffman_decoder : ℕ → ℕ → List ℕ → List Node → Option HuffmanDecoder
create_huffman_decoder numcodes maxbits lookup huffnode =
    if ltb 24 maxbits
    then none
    else some (record {
      numcodes = numcodes;
      maxbits = maxbits;
      prevdata = 0;
      rleremaining = 0;
      lookup = lookup;
      huffnode = huffnode;
      datahisto = none;
    })

-- The macro MAKE_LOOKUP, stored into a `lookup_value`.
unfoldable pub make_lookup : ℕ → ℕ → ℕ
make_lookup code bits = u16 (bit_or (code <<< 5) (bit_and bits 0x1f))

unfoldable pub huffman_decode_one : HuffmanDecoder → Bitstream → ℕ × Bitstream
huffman_decode_one d bitbuf =
    let (window, bitbuf') = bitstream_peek bitbuf d.maxbits in
    let lookup = get_or d.lookup window 0 in
    (lookup >>> 5, bitstream_remove bitbuf' (bit_and lookup 0x1f))

-- The histogram of code lengths; `none` for a length above `maxbits`.
pub count_lengths : ℕ → List Node → List ℕ → Option (List ℕ)
count_lengths maxbits [] bithisto = some bithisto
count_lengths maxbits (node ∷ nodes) bithisto =
    let rest = count_lengths maxbits nodes (
      if leb node.numbits 32
      then set bithisto node.numbits (u32 (get_or bithisto node.numbits 0 + 1))
      else bithisto) in
    if ltb maxbits node.numbits then none else rest

-- The loop over `codelen`, which replaces each count by the first code of that length; `none`
-- where the codes of a length do not pair up.
pub start_codes : ℕ → ℕ → List ℕ → Option (List ℕ)
start_codes zero curstart bithisto = some bithisto
start_codes (suc l) curstart bithisto =
    let total = u32 (curstart + get_or bithisto (suc l) 0) in
    let nextstart = total >>> 1 in
    let rest = start_codes l nextstart (set bithisto (suc l) curstart) in
    if not (suc l == 1) && not (u32 (nextstart * 2) == total) then none else rest

pub assign_codes : List ℕ → List Node → List Node
assign_codes bithisto [] = []
assign_codes bithisto (node ∷ nodes) =
    let code = get_or bithisto node.numbits 0 in
    if ltb 0 node.numbits
    then record node { bits = code }
      ∷ assign_codes (set bithisto node.numbits (u32 (code + 1))) nodes
    else node ∷ assign_codes bithisto nodes

unfoldable pub zeros : ℕ → List ℕ
zeros zero = []
zeros (suc n) = 0 ∷ zeros n

unfoldable pub huffman_assign_canonical_codes : HuffmanDecoder → HuffmanError × HuffmanDecoder
huffman_assign_canonical_codes d = elim (count_lengths d.maxbits d.huffnode (zeros 33)) [
  | none ↦ (internal_inconsistency, d)
  | some counts ↦ elim (start_codes 32 0 counts) [
    | none ↦ (internal_inconsistency, d)
    | some starts ↦ (no_error, record d { huffnode = assign_codes starts d.huffnode })
  ]
]

-- `while (dest <= destend) *dest++ = value;`, by the number of entries.
pub fill : ℕ → ℕ → ℕ → List ℕ → List ℕ
fill zero dest value lookup = lookup
fill (suc n) dest value lookup = fill n (dest + 1) value (set lookup dest value)

-- The loop of `huffman_build_lookup_table` from `curcode` on. The pointers `dest` and `destend`
-- are indices into the table, computed in 32 bits.
pub build_lookup : ℕ → ℕ → List Node → List ℕ → HuffmanError × List ℕ
unfolding fill
build_lookup maxbits curcode [] lookup = (no_error, lookup)
build_lookup maxbits curcode (node ∷ nodes) lookup =
    let shift = maxbits - node.numbits in
    let dest = u32 (node.bits <<< shift) in
    let destend = u32 (u32 (node.bits + 1) <<< shift + 2 ^ 32 - 1) in
    let size = 2 ^ maxbits in
    let outside = leb size dest || leb size destend || ltb destend dest in
    let filled = fill (destend - dest + 1) dest (make_lookup curcode node.numbits) lookup in
    let rest =
      build_lookup maxbits (curcode + 1) nodes (if ltb 0 node.numbits then filled else lookup) in
    if ltb 0 node.numbits && outside then (internal_inconsistency, lookup) else rest

unfoldable pub huffman_build_lookup_table : HuffmanDecoder → HuffmanError × HuffmanDecoder
huffman_build_lookup_table d =
    let (error, lookup) = build_lookup d.maxbits 0 d.huffnode d.lookup in
    (error, record d { lookup = lookup })
