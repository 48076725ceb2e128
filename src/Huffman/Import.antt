-- ===== src/Huffman/Import.antt =====
-- The two readers of code lengths of src/libchdr_huffman.c. They write the lengths into the
-- decoder's nodes, then assign the codes and build the table.
pub mod Total
pub mod Decodes
use libchdr.Prelude.{
  ℕ, zero, suc, ◌+◌, ◌-◌, ◌^◌, min, u8, u32, ◌>>>◌, List, [], ◌∷◌, Bool, true, false, ltb,
}
use libchdr.Prelude.{leb, ◌==◌, ◌||◌, not, if◌then◌else◌, Option, none, some}
use libchdr.Bitstream.{Bitstream, bitstream_read, bitstream_overflow}
use libchdr.Huffman.{Node, HuffmanDecoder, HuffmanError, no_error, invalid_data}
use libchdr.Huffman.{input_buffer_too_small, internal_inconsistency, huffman_decode_one}
use libchdr.Huffman.{huffman_assign_canonical_codes, huffman_build_lookup_table}
use libchdr.Huffman.{create_huffman_decoder}

-- `huffnode[i].numbits = n`
pub set_numbits : List Node → ℕ → ℕ → List Node
set_numbits [] i n = []
set_numbits (node ∷ nodes) zero n = record node { numbits = u8 n } ∷ nodes
set_numbits (node ∷ nodes) (suc i) n = node ∷ set_numbits nodes i n

-- `while (repcount--) huffnode[curnode++].numbits = nodebits;`
pub repeat_numbits : ℕ → List Node → ℕ → ℕ → List Node
unfolding set_numbits
repeat_numbits zero nodes curnode nodebits = nodes
repeat_numbits (suc repcount) nodes curnode nodebits =
    repeat_numbits repcount (set_numbits nodes curnode nodebits) (curnode + 1) nodebits

-- The nodes, the number of them that is set, and the reader, as a loop leaves them; the error is
-- `no_error` unless the loop returned early.
pub record Progress : Type 0 where
  pub error : HuffmanError
  pub curnode : ℕ
  pub nodes : List Node
  pub bitbuf : Bitstream

-- One round of the loop of `huffman_import_tree_rle`.
unfoldable pub rle_round : ℕ → ℕ → Progress → Progress
unfolding repeat_numbits set_numbits
rle_round numbits numcodes w =
    let (nodebits, b1) = bitstream_read w.bitbuf numbits in
    if not (nodebits == 1)
    then record w {
      curnode = w.curnode + 1;
      nodes = set_numbits w.nodes w.curnode nodebits;
      bitbuf = b1;
    }
    else let (nodebits', b2) = bitstream_read b1 numbits in
      if nodebits' == 1
      then record w {
        curnode = w.curnode + 1;
        nodes = set_numbits w.nodes w.curnode nodebits';
        bitbuf = b2;
      }
      else let (more, b3) = bitstream_read b2 numbits in
        let repcount = more + 3 in
        if ltb numcodes (u32 (repcount + w.curnode))
        then record w { error = invalid_data; bitbuf = b3 }
        else record w {
          curnode = w.curnode + repcount;
          nodes = repeat_numbits repcount w.nodes w.curnode nodebits';
          bitbuf = b3;
        }

abbrev pub is_no_error : HuffmanError → Bool
is_no_error no_error = true
is_no_error _ = false

-- The loop; each round sets a node at least, so that `numcodes` rounds are enough.
pub rle_loop : ℕ → ℕ → ℕ → Progress → Progress
unfolding rle_round
rle_loop zero numbits numcodes w = w
rle_loop (suc fuel) numbits numcodes w = elim (ltb w.curnode numcodes) [
  | true ↦
      let w' = rle_round numbits numcodes w in
      elim (is_no_error w'.error) [ true ↦ rle_loop fuel numbits numcodes w' | false ↦ w' ]
  | false ↦ w
]

-- What both readers do with the lengths that they read.
unfoldable pub finish : ℕ → HuffmanDecoder → Progress → HuffmanError × HuffmanDecoder × Bitstream
finish numcodes d w =
    let d0 : HuffmanDecoder = record d { huffnode = w.nodes } in
    if not (is_no_error w.error)
    then (w.error, d0, w.bitbuf)
    else if not (w.curnode == numcodes)
    then (invalid_data, d0, w.bitbuf)
    else let (e1, d1) = huffman_assign_canonical_codes d0 in
      if not (is_no_error e1)
      then (e1, d1, w.bitbuf)
      else let (e2, d2) = huffman_build_lookup_table d1 in
        if not (is_no_error e2) then (e2, d2, w.bitbuf) else (
          if bitstream_overflow w.bitbuf then input_buffer_too_small else no_error,
          d2,
          w.bitbuf,
        )

abbrev pub rle_width : ℕ → ℕ
rle_width maxbits = if leb 16 maxbits then 5 else if leb 8 maxbits then 4 else 3

unfoldable pub huffman_import_tree_rle :
    HuffmanDecoder → Bitstream → HuffmanError × HuffmanDecoder × Bitstream
unfolding rle_loop finish
huffman_import_tree_rle d bitbuf =
    let start : Progress = record {
      error = no_error;
      curnode = 0;
      nodes = d.huffnode;
      bitbuf = bitbuf;
    } in
    finish d.numcodes d (rle_loop d.numcodes (rle_width d.maxbits) d.numcodes start)

-- The lengths of the small tree from node `index` on; `count` is the last length that was read.
pub small_lengths : ℕ → ℕ → ℕ → ℕ → List Node → Bitstream → List Node × Bitstream
unfolding set_numbits
small_lengths zero index start count nodes bitbuf = (nodes, bitbuf)
small_lengths (suc left) index start count nodes bitbuf = elim (ltb index start || count == 7) [
  | true ↦ small_lengths left (index + 1) start count (set_numbits nodes index 0) bitbuf
  | false ↦
      let (count', bitbuf') = bitstream_read bitbuf 3 in
      small_lengths left (index + 1) start count'
        (set_numbits nodes index (if count' == 7 then 0 else count')) bitbuf'
]

-- The loop `while (temp != 0) temp >>= 1, rlefullbits++`; 32 rounds empty a 32-bit word.
pub bit_length : ℕ → ℕ → ℕ
bit_length zero temp = 0
bit_length (suc fuel) temp = elim (temp == 0) [
  | true ↦ 0
  | false ↦ suc (bit_length fuel (temp >>> 1))
]

-- One round of the second loop of `huffman_import_tree_huffman`; `last` is the last length.
unfoldable pub tree_round : HuffmanDecoder → ℕ → ℕ → ℕ × Progress → ℕ × Progress
unfolding repeat_numbits set_numbits
tree_round smallhuff rlefullbits numcodes (last, w) =
    let (value, b1) = huffman_decode_one smallhuff w.bitbuf in
    if not (value == 0)
    then (
      value - 1,
      record w {
        curnode = w.curnode + 1;
        nodes = set_numbits w.nodes w.curnode (value - 1);
        bitbuf = b1;
      },
    )
    else let (short, b2) = bitstream_read b1 3 in
      let (more, b3) = if short + 2 == 7 + 2 then bitstream_read b2 rlefullbits else (0, b2) in
      let rounds = min (short + 2 + more) (numcodes - w.curnode) in
      (
        last,
        record w {
          curnode = w.curnode + rounds;
          nodes = repeat_numbits rounds w.nodes w.curnode last;
          bitbuf = b3;
        },
      )

pub tree_loop : ℕ → HuffmanDecoder → ℕ → ℕ → ℕ × Progress → ℕ × Progress
unfolding tree_round
tree_loop zero smallhuff rlefullbits numcodes w = w
tree_loop (suc fuel) smallhuff rlefullbits numcodes w = elim (ltb w.1.curnode numcodes) [
  | true ↦
      tree_loop fuel smallhuff rlefullbits numcodes (tree_round smallhuff rlefullbits numcodes w)
  | false ↦ w
]

-- The last part, once the small tree is there.
unfoldable pub import_with_small :
    HuffmanDecoder → HuffmanDecoder → Bitstream → HuffmanError × HuffmanDecoder × Bitstream
unfolding tree_loop bit_length finish
import_with_small smallhuff d bitbuf =
    let rlefullbits = bit_length 32 (u32 (d.numcodes + 2 ^ 32 - 9)) in
    let start : Progress = record {
      error = no_error;
      curnode = 0;
      nodes = d.huffnode;
      bitbuf = bitbuf;
    } in
    finish d.numcodes d (tree_loop d.numcodes smallhuff rlefullbits d.numcodes (0, start)).1

-- The two lists are the memory of the small decoder, 64 entries and 24 nodes.
unfoldable pub huffman_import_tree_huffman :
    List ℕ → List Node → HuffmanDecoder → Bitstream → HuffmanError × HuffmanDecoder × Bitstream
unfolding small_lengths import_with_small set_numbits
huffman_import_tree_huffman lookup huffnode d bitbuf =
    elim (create_huffman_decoder 24 6 lookup huffnode) [
      | none ↦ (internal_inconsistency, d, bitbuf)
      | some small ↦
          let (first, b1) = bitstream_read bitbuf 3 in
          let (second, b2) = bitstream_read b1 3 in
          let (nodes, b3) =
            small_lengths 23 1 (second + 1) 0 (set_numbits small.huffnode 0 first) b2 in
          let (e1, small1) = huffman_assign_canonical_codes (record small { huffnode = nodes }) in
          if not (is_no_error e1)
          then (e1, d, b3)
          else let (e2, small2) = huffman_build_lookup_table small1 in
            if not (is_no_error e2) then (e2, d, b3) else import_with_small small2 d b3
    ]
