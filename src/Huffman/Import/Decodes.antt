-- ===== src/Huffman/Import/Decodes.antt =====
-- A successful import of a tree leaves a decoder that decodes every code of that tree.
use libchdr.Prelude.{ℕ, ◌+◌, ◌*◌, ◌≤◌, ◌<◌, ◌≡◌, refl, arith, List, length, get_elem?, some}
use libchdr.Bitstream.{Bitstream}
use libchdr.Bitstream.Spec.{bits_at}
use libchdr.Bitstream.Refine.{IsAt, IsBytes, max_position}
use libchdr.Huffman.{Node, HuffmanDecoder, no_error, huffman_decode_one}
use libchdr.Huffman.Decode.{IsSized, decode_one-code}
use libchdr.Huffman.Import.{Progress, rle_loop, rle_width, huffman_import_tree_rle}
use libchdr.Huffman.Import.Total.{rle_loop-IsRun, finish-inv}

rle_width-le : (maxbits : ℕ) → rle_width maxbits ≤ 5
rle_width-le maxbits = ground arith

-- If `huffman_import_tree_rle` reports no error, then in any input, wherever the bits start with
-- the code of a symbol of the tree that it read, `huffman_decode_one` returns that symbol and
-- consumes exactly its code. The decoder has at most 2048 symbols and codes of at most 16 bits,
-- as all of the library's have.
pub import_rle-decode_one :
    (tree : List ℕ) (treelen : ℕ) (d d' : HuffmanDecoder) (t t' : Bitstream) (q : ℕ)
    → IsBytes tree
    → IsAt tree treelen t q
    → q + 15 * d.numcodes ≤ max_position
    → IsSized d
    → length d.huffnode ≡ d.numcodes
    → huffman_import_tree_rle d t ≡ (no_error, d', t')
    → (src : List ℕ) (len : ℕ) (s : Bitstream) (p c : ℕ) (v : Node) → IsBytes src
    → IsAt src len s p
    → p ≤ max_position
    → get_elem? d'.huffnode c ≡ some v
    → 0 < v.numbits
    → bits_at src len p v.numbits ≡ v.bits
    → ((huffman_decode_one d' s).0 ≡ c) × IsAt src len (huffman_decode_one d' s).1 (p + v.numbits)
unfolding huffman_import_tree_rle
import_rle-decode_one tree treelen d d' t t' q tree_bytes at_q room sized nodes e src len s p c v =
    let start : Progress = record {
      error = no_error;
      curnode = 0;
      nodes = d.huffnode;
      bitbuf = t;
    } in
    let w = rle_loop d.numcodes (rle_width d.maxbits) d.numcodes start in
    let run =
      rle_loop-IsRun tree treelen tree_bytes d.numcodes (omega (arith, sized.few))
        (rle_width d.maxbits) (rle_width-le d.maxbits) d.numcodes q start at_q room refl
        (omega arith) (omega arith) in
    let (d1, assign, build, all, fits, reader) = finish-inv d.numcodes d d' w t' e in
    decode_one-code (record d { huffnode = w.nodes }) d1 d'
      (record {
        narrow = sized.narrow;
        few = omega (arith, run.same_size, sized.few);
        table = sized.table;
      })
      assign build src len s p c v
