-- ===== src/Huffman/Import/Total.antt =====
-- The loop of `huffman_import_tree_rle` ends by its own test or by its early return, with every
-- node set, and a successful import leaves a decoder that decodes.
use libchdr.Prelude.{ℕ, zero, suc, ◌+◌, ◌*◌, ◌^◌, ◌≤◌, ◌<◌, ◌≡◌, refl, ap, ◌∙◌, ◌⊎◌, inl, inr}
use libchdr.Prelude.{arith, List, [], ◌∷◌, length, u32, ltb, ◌==◌, not, false, Bool-cases, ltb→lt}
use libchdr.Prelude.Pow.{pow_mono}
use libchdr.Bitstream.{Bitstream, bitstream_read, bitstream_overflow}
use libchdr.Bitstream.Spec.{bits_at-lt}
use libchdr.Bitstream.Refine.{IsAt, IsBytes, max_position, bitstream_read-IsAt}
use libchdr.Huffman.{Node, HuffmanDecoder, no_error, invalid_data}
use libchdr.Huffman.Import.{set_numbits, repeat_numbits, Progress, rle_round, rle_loop, finish}
use libchdr.Huffman.Import.{is_no_error}
use libchdr.Huffman.{huffman_assign_canonical_codes, huffman_build_lookup_table}

pub length-set_numbits :
    (nodes : List Node) (i n : ℕ) → length (set_numbits nodes i n) ≡ length nodes
unfolding set_numbits
length-set_numbits [] i n = refl
length-set_numbits (node ∷ nodes) zero n = refl
length-set_numbits (node ∷ nodes) (suc i) n = ap suc (length-set_numbits nodes i n)

pub length-repeat_numbits :
    (k : ℕ) (nodes : List Node) (i n : ℕ) → length (repeat_numbits k nodes i n) ≡ length nodes
unfolding repeat_numbits
length-repeat_numbits zero nodes i n = refl
length-repeat_numbits (suc k) nodes i n =
    length-repeat_numbits k (set_numbits nodes i n) (i + 1) n ∙ length-set_numbits nodes i n

-- What one round does to the loop's state: it returns early, or sets some nodes.
pub record IsRound (src : List ℕ) (len n p : ℕ) (w w' : Progress) : Type 0 where
  pub position : ℕ
  pub bounded : position ≤ p + 15
  pub reader : IsAt src len w'.bitbuf position
  pub same_size : length w'.nodes ≡ length w.nodes
  pub outcome :
      (w'.error ≡ invalid_data)
      ⊎ ((w'.error ≡ no_error) × (w.curnode < w'.curnode) × (w'.curnode ≤ n))

-- What the loop leaves: an early return, or every node set.
pub record IsRun (src : List ℕ) (len n : ℕ) (w w' : Progress) : Type 0 where
  pub position : ℕ
  pub reader : IsAt src len w'.bitbuf position
  pub same_size : length w'.nodes ≡ length w.nodes
  pub outcome : (w'.error ≡ invalid_data) ⊎ ((w'.error ≡ no_error) × (w'.curnode ≡ n))

module _ (src : List ℕ) (len : ℕ) (bytes : IsBytes src) (n : ℕ) (few : n < 2 ^ 31) (numbits : ℕ)
    (narrow : numbits ≤ 5) where
  read_value :
      (s : Bitstream) (p : ℕ)
      → IsAt src len s p
      → p ≤ max_position
      → (bitstream_read s numbits).0 < 2 ^ 5
  read_value s p v room =
      rw (bitstream_read-IsAt src len bytes s p numbits v (omega arith) room).0
        (omega (arith, bits_at-lt src len p numbits, pow_mono numbits 5 narrow))

  rle_round-IsRound :
      (p : ℕ) (w : Progress)
      → IsAt src len w.bitbuf p
      → p + 15 ≤ max_position
      → w.error ≡ no_error
      → w.curnode < n
      → IsRound src len n p w (rle_round numbits n w)
  unfolding rle_round
  rle_round-IsRound p w v room fine more =
      let r1 = bitstream_read w.bitbuf numbits in
      let at1 : IsAt src len r1.1 (p + numbits) =
        (bitstream_read-IsAt src len bytes w.bitbuf p numbits v (omega arith) (omega arith)).1 in
      let r2 = bitstream_read r1.1 numbits in
      let at2 : IsAt src len r2.1 (p + numbits + numbits) =
        (bitstream_read-IsAt src len bytes r1.1 (p + numbits) numbits at1 (omega arith)
          (omega arith)).1 in
      let r3 = bitstream_read r2.1 numbits in
      let at3 : IsAt src len r3.1 (p + numbits + numbits + numbits) =
        (bitstream_read-IsAt src len bytes r2.1 (p + numbits + numbits) numbits at2 (omega arith)
          (omega arith)).1 in
      let small : r3.0 < 2 ^ 5 = read_value r2.1 (p + numbits + numbits) at2 (omega arith) in
      elim (Bool-cases (not (r1.0 == 1))) [
        | inl raw ↦ rw raw (record {
          position = p + numbits;
          bounded = omega arith;
          reader = at1;
          same_size = length-set_numbits w.nodes w.curnode r1.0;
          outcome = inr (fine, omega arith, omega arith);
        })
        | inr escape ↦ elim (Bool-cases (r2.0 == 1)) [
          | inl one ↦
              rw (escape, one)
                (record {
                  position = p + numbits + numbits;
                  bounded = omega arith;
                  reader = at2;
                  same_size = length-set_numbits w.nodes w.curnode r2.0;
                  outcome = inr (fine, omega arith, omega arith);
                })
          | inr run ↦ elim (Bool-cases (ltb n (u32 (r3.0 + 3 + w.curnode)))) [
            | inl long ↦
                rw (escape, run, long)
                  (record {
                    position = p + numbits + numbits + numbits;
                    bounded = omega arith;
                    reader = at3;
                    same_size = refl;
                    outcome = inl refl;
                  })
            | inr fits ↦
                rw (escape, run, fits)
                  (record {
                    position = p + numbits + numbits + numbits;
                    bounded = omega arith;
                    reader = at3;
                    same_size = length-repeat_numbits (r3.0 + 3) w.nodes w.curnode r2.0;
                    outcome = inr (fine, omega arith, ground arith);
                  })
          ]
        ]
      ]

  -- Each round sets a node at least, so as many rounds as there are nodes left are enough: the
  -- loop stops by its test, with the last node set, or by its early return.
  pub rle_loop-IsRun :
      (fuel p : ℕ) (w : Progress)
      → IsAt src len w.bitbuf p
      → p + 15 * fuel ≤ max_position
      → w.error ≡ no_error
      → w.curnode ≤ n
      → n ≤ w.curnode + fuel
      → IsRun src len n w (rle_loop fuel numbits n w)
  unfolding rle_loop
  rle_loop-IsRun zero p w v room fine below enough = record {
    position = p;
    reader = v;
    same_size = refl;
    outcome = inr (fine, omega arith);
  }
  rle_loop-IsRun (suc fuel) p w v room fine below enough = elim (Bool-cases (ltb w.curnode n)) [
    | inr full ↦
        rw (full, rle_loop)
          (record {
            position = p;
            reader = v;
            same_size = refl;
            outcome = inr (fine, ground arith);
          })
    | inl more ↦
        let w' = rle_round numbits n w in
        let round = rle_round-IsRound p w v (omega arith) fine (ltb→lt w.curnode n more) in
        elim round.outcome [
          | inl bad ↦
              rw (more, rle_loop, ap is_no_error bad)
                (record {
                  position = round.position;
                  reader = round.reader;
                  same_size = round.same_size;
                  outcome = inl bad;
                })
          | inr (good, forward, inside) ↦
              let rest =
                rle_loop-IsRun fuel round.position w' round.reader (omega (arith, round.bounded))
                  good inside (omega arith) in
              rw (more, rle_loop, ap is_no_error good)
                (record {
                  position = rest.position;
                  reader = rest.reader;
                  same_size = rest.same_size ∙ round.same_size;
                  outcome = rest.outcome;
                })
        ]
  ]

-- What a successful `finish` did.
pub finish-inv :
    (n : ℕ) (d d' : HuffmanDecoder) (w : Progress) (bitbuf : Bitstream)
    → finish n d w ≡ (no_error, d', bitbuf)
    → (d1 : HuffmanDecoder) × (huffman_assign_canonical_codes (record d { huffnode = w.nodes })
        ≡ (no_error, d1))
      × (huffman_build_lookup_table d1 ≡ (no_error, d'))
      × (w.curnode ≡ n)
      × (bitstream_overflow bitbuf ≡ false)
      × (bitbuf ≡ w.bitbuf)
unfolding finish
finish-inv n d d' w bitbuf e = (
  (huffman_assign_canonical_codes (record d { huffnode = w.nodes })).1,
  ground arith,
  ground arith,
  ground arith,
  ground arith,
  ground arith,
)
