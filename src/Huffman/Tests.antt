-- ===== src/Huffman/Tests.antt =====
-- Runs of src/libchdr_huffman.c, and its theorems at concrete decoders.
use libchdr.Prelude.{ℕ, suc, zero, ◌≡◌, refl, arith, List, [], ◌∷◌, none, replicate}
use libchdr.Bitstream.{Bitstream, create_bitstream, bitstream_read, bitstream_overflow}
use libchdr.Bitstream.Spec.{bits_at}
use libchdr.Bitstream.Refine.{IsAt, IsBytes, create_bitstream-IsAt}
use libchdr.Huffman.{Node, HuffmanDecoder, HuffmanError, no_error, huffman_decode_one}
use libchdr.Huffman.{huffman_assign_canonical_codes, huffman_build_lookup_table, count_lengths}
use libchdr.Huffman.{start_codes, assign_codes, zeros, build_lookup, make_lookup}
use libchdr.Huffman.Assign.{assign-prefix_free}
use libchdr.Huffman.Decode.{IsSized, decode_one-code}
use libchdr.Huffman.PrefixFree.{Begins}
use libchdr.Huffman.Import.{Progress, rle_loop, huffman_import_tree_rle}
use libchdr.Huffman.Import.Total.{IsRun, rle_loop-IsRun}
use libchdr.Huffman.Import.Decodes.{import_rle-decode_one}

abbrev blank : Node
blank = record { parent = none; count = 0; weight = 0; bits = 0; numbits = 0 }

-- Memory as `malloc` might return it, for four codes of at most three bits.
abbrev raw : HuffmanDecoder
raw = record {
  numcodes = 4;
  maxbits = 3;
  prevdata = 0;
  rleremaining = 0;
  lookup = replicate 8 0xffff;
  huffnode = replicate 4 blank;
  datahisto = none;
}

-- The lengths 1, 2, 3 and 3, in the encoding of `huffman_import_tree_rle`: a 1 is written twice.
abbrev tree : List ℕ
tree = 0x25 ∷ 0x36 ∷ 0 ∷ []

tree-IsBytes : IsBytes tree
tree-IsBytes zero = omega arith
tree-IsBytes (suc zero) = omega arith
tree-IsBytes (suc (suc zero)) = omega arith
tree-IsBytes (suc (suc (suc j))) = omega arith

abbrev at_tree : Bitstream
at_tree = create_bitstream tree 3

abbrev imported : HuffmanError × HuffmanDecoder × Bitstream
imported = huffman_import_tree_rle raw at_tree

imported_lookup :
    (imported.0 ≡ no_error) × (imported.1.lookup ≡ 67 ∷ 99 ∷ 34 ∷ 34 ∷ 1 ∷ 1 ∷ 1 ∷ 1 ∷ [])
unfolding huffman_import_tree_rle create_bitstream bitstream_read bitstream_overflow
    huffman_assign_canonical_codes huffman_build_lookup_table count_lengths start_codes assign_codes
    zeros build_lookup make_lookup
imported_lookup = (refl, refl)

-- The decoder before its codes are assigned, and after each step.
abbrev sized : HuffmanDecoder
sized = record raw {
  huffnode =
      record blank { numbits = 1 }
      ∷ record blank { numbits = 2 }
      ∷ record blank { numbits = 3 }
      ∷ record blank { numbits = 3 }
      ∷ [];
}

abbrev coded : HuffmanDecoder
coded = record raw {
  huffnode =
      record blank { numbits = 1; bits = 1 }
      ∷ record blank { numbits = 2; bits = 1 }
      ∷ record blank { numbits = 3; bits = 0 }
      ∷ record blank { numbits = 3; bits = 1 }
      ∷ [];
}

abbrev tabled : HuffmanDecoder
tabled = record coded { lookup = 67 ∷ 99 ∷ 34 ∷ 34 ∷ 1 ∷ 1 ∷ 1 ∷ 1 ∷ [] }

sized-coded : huffman_assign_canonical_codes sized ≡ (no_error, coded)
unfolding huffman_assign_canonical_codes count_lengths start_codes assign_codes zeros
sized-coded = refl

coded-tabled : huffman_build_lookup_table coded ≡ (no_error, tabled)
unfolding huffman_build_lookup_table build_lookup make_lookup
coded-tabled = refl

sized-IsSized : IsSized sized
sized-IsSized = record { narrow = omega arith; few = omega arith; table = refl }

assign-prefix_free_example : ¬ (
    Begins 3 3 (record blank { numbits = 2; bits = 1 })
    × Begins 3 3 (record blank { numbits = 3; bits = 1 }))
assign-prefix_free_example =
    assign-prefix_free sized coded 1 3 (record blank { numbits = 2; bits = 1 })
      (record blank { numbits = 3; bits = 1 }) 3 (omega arith) (omega arith) sized-coded refl refl
      (omega arith) (omega arith) (omega arith)

-- The input 0x20 starts with the code 001 of symbol 3.
abbrev input : List ℕ
input = 0x20 ∷ []

input-IsBytes : IsBytes input
input-IsBytes zero = omega arith
input-IsBytes (suc j) = omega arith

abbrev at_input : Bitstream
at_input = create_bitstream input 1

code_of_three : bits_at input 1 0 3 ≡ 1
unfolding bits_at
code_of_three = refl

decode_one-code_example :
    ((huffman_decode_one tabled at_input).0 ≡ 3)
    × IsAt input 1 (huffman_decode_one tabled at_input).1 3
decode_one-code_example =
    decode_one-code sized coded tabled sized-IsSized sized-coded coded-tabled input 1 at_input 0 3
      (record blank { numbits = 3; bits = 1 }) input-IsBytes
      (create_bitstream-IsAt input 1 input-IsBytes) (omega arith) refl (omega arith) code_of_three

abbrev rle_start : Progress
rle_start = record { error = no_error; curnode = 0; nodes = raw.huffnode; bitbuf = at_tree }

rle_loop-IsRun_example : IsRun tree 3 4 rle_start (rle_loop 4 3 4 rle_start)
rle_loop-IsRun_example =
    rle_loop-IsRun tree 3 tree-IsBytes 4 (omega arith) 3 (omega arith) 4 0 rle_start
      (create_bitstream-IsAt tree 3 tree-IsBytes) (omega arith) refl (omega arith) (omega arith)

import_result : imported ≡ (no_error, tabled, imported.2)
unfolding huffman_import_tree_rle create_bitstream bitstream_read bitstream_overflow
    huffman_assign_canonical_codes huffman_build_lookup_table count_lengths start_codes assign_codes
    zeros build_lookup make_lookup
import_result = refl

import_rle-decode_one_example :
    ((huffman_decode_one tabled at_input).0 ≡ 3)
    × IsAt input 1 (huffman_decode_one tabled at_input).1 3
import_rle-decode_one_example =
    import_rle-decode_one tree 3 raw tabled at_tree imported.2 0 tree-IsBytes
      (create_bitstream-IsAt tree 3 tree-IsBytes) (omega arith)
      (record { narrow = omega arith; few = omega arith; table = refl }) refl import_result input 1
      at_input 0 3 (record blank { numbits = 3; bits = 1 }) input-IsBytes
      (create_bitstream-IsAt input 1 input-IsBytes) (omega arith) refl (omega arith) code_of_three
