-- ===== src/MapV5/Types.antt =====
-- The first pass against the run-length code that it undoes: the bits hold tokens, a type or a
-- repetition of the last type, and the types are the expansion of the tokens.
use libchdr.Prelude.{
  ℕ, zero, suc, ◌+◌, ◌-◌, ◌*◌, ◌<◌, ◌≡◌, ◌≢◌, refl, ap, ◌∙◌, sym, subst, arith, u8, ◌<<<◌,
}
use libchdr.Prelude.{List, [], ◌∷◌, ◌++◌, length, replicate, ltb, ◌==◌}
use libchdr.Prelude.{false, some, Bool-cases, Option-cases, inl, inr}
use libchdr.Bitstream.{Bitstream, bitstream_overflow}
use libchdr.Huffman.{HuffmanDecoder, huffman_decode_one}
use libchdr.MapV5.{TypeState, type_code, type_round, type_pass}

pub data Token : Type 0 where
  literal repetition : ℕ → Token

-- The types that tokens stand for, after a hunk of type `last`.
abbrev pub expand : ℕ → List Token → List ℕ
expand last [] = []
expand last (literal type ∷ tokens) = type ∷ expand type tokens
expand last (repetition count ∷ tokens) = replicate count last ++ expand last tokens

module _ (decoder : HuffmanDecoder) where
  -- One token in the bits: a code of its own, or the code 7 with a short count, or the code 8 with a
  -- long one.
  pub data IsToken (b : Bitstream) : Token → Bitstream → Type 0 where
    is_literal :
        {val : ℕ} {b1 : Bitstream}
        → huffman_decode_one decoder b ≡ (val, b1)
        → u8 val ≢ 7
        → u8 val ≢ 8
        → IsToken b (literal (u8 val)) b1
    is_short :
        {val count : ℕ} {b1 b2 : Bitstream}
        → huffman_decode_one decoder b ≡ (val, b1)
        → u8 val ≡ 7
        → huffman_decode_one decoder b1 ≡ (count, b2)
        → IsToken b (repetition (3 + count)) b2
    is_long :
        {val high low : ℕ} {b1 b2 b3 : Bitstream}
        → huffman_decode_one decoder b ≡ (val, b1)
        → u8 val ≡ 8
        → huffman_decode_one decoder b1 ≡ (high, b2)
        → huffman_decode_one decoder b2 ≡ (low, b3)
        → IsToken b (repetition (19 + high * 16 + low)) b3

  pub data IsTokens : Bitstream → List Token → Bitstream → Type 0 where
    no_more : {b : Bitstream} → IsTokens b [] b
    token :
        {b b' b'' : Bitstream} {t : Token} {ts : List Token}
        → bitstream_overflow b ≡ false
        → IsToken b t b'
        → IsTokens b' ts b''
        → IsTokens b (t ∷ ts) b''

  -- The types that a state writes next, before the tokens `ts`.
  abbrev upcoming : TypeState → List Token → List ℕ
  upcoming w ts = replicate w.repcount w.lastcomp ++ expand w.lastcomp ts

  -- A round that reads a token: the type that it writes and the state that it leaves.
  abbrev ReadsToken : Bitstream → ℕ → ℕ × TypeState → Type 0
  ReadsToken b last (type, w) =
      (t : Token) × IsToken b t w.bitbuf
      × ((ts : List Token) → type ∷ upcoming w ts ≡ expand last (t ∷ ts))

  type_code-ReadsToken :
      (b : Bitstream) (last : ℕ)
      → (let (val, b') = huffman_decode_one decoder b in
          ReadsToken b last (type_code decoder last (u8 val) b'))
  unfolding type_code
  type_code-ReadsToken b last =
      let (val, b1) = huffman_decode_one decoder b in
      let (count, b2) = huffman_decode_one decoder b1 in
      let (low, b3) = huffman_decode_one decoder b2 in
      elim (Bool-cases (u8 val == 7)) [
        | inl short ↦
            let more : suc (2 + count) ≡ 3 + count = omega arith in
            let result : type_code decoder last (u8 val) b1
                ≡ (last, record { repcount = 2 + count; lastcomp = last; bitbuf = b2 }) =
              rw (short, type_code) refl in
            subst (ReadsToken b last) (sym result) (
              repetition (3 + count),
              is_short refl (ground arith) refl,
              λ ts. ap (λ n. replicate n last ++ expand last ts) more,
            )
        | inr not_short ↦ elim (Bool-cases (u8 val == 8)) [
          | inl long ↦
              let more : suc (2 + 16 + (count <<< 4) + low) ≡ 19 + count * 16 + low = omega arith in
              let result : type_code decoder last (u8 val) b1 ≡ (
                last,
                record { repcount = 2 + 16 + (count <<< 4) + low; lastcomp = last; bitbuf = b3 },
              ) =
                rw (not_short, long, type_code) refl in
              subst (ReadsToken b last) (sym result) (
                repetition (19 + count * 16 + low),
                is_long refl (ground arith) refl refl,
                λ ts. ap (λ n. replicate n last ++ expand last ts) more,
              )
          | inr not_long ↦
              let result : type_code decoder last (u8 val) b1
                  ≡ (u8 val, record { repcount = 0; lastcomp = u8 val; bitbuf = b1 }) =
                rw (not_short, not_long, type_code) refl in
              subst (ReadsToken b last) (sym result)
                (literal (u8 val), is_literal refl (ground arith) (ground arith), λ ts. refl)
        ]
      ]

  replicate-pos : (n a : ℕ) → 0 < n → replicate n a ≡ a ∷ replicate (n - 1) a
  replicate-pos zero a h = absurd (omega arith)
  replicate-pos (suc n) a h = let less : suc n - 1 ≡ n = omega arith in rw less refl

  append-nil : (xs : List ℕ) → xs ++ [] ≡ xs
  append-nil [] = refl
  append-nil (x ∷ xs) = ap (λ ys. x ∷ ys) (append-nil xs)

  -- What a pass over `n` hunks from the state `w` has done, with its types and its last state.
  abbrev pub IsExpansion : ℕ → TypeState → List ℕ × TypeState → Type 0
  IsExpansion n w (types, w') =
      (ts : List Token) × IsTokens w.bitbuf ts w'.bitbuf
      × (length types ≡ n)
      × (types ++ replicate w'.repcount w'.lastcomp
          ≡ replicate w.repcount w.lastcomp ++ expand w.lastcomp ts)

  repeated-IsExpansion :
      (n : ℕ) (w : TypeState) (rest : List ℕ × TypeState)
      → 0 < w.repcount
      → IsExpansion n (record w { repcount = w.repcount - 1 }) rest
      → IsExpansion (suc n) w (w.lastcomp ∷ rest.0, rest.1)
  repeated-IsExpansion n w rest some_left (ts, tokens, size, same) = (
    ts,
    tokens,
    ap suc size,
    ap (λ types. w.lastcomp ∷ types) same
        ∙ ap (λ types. types ++ expand w.lastcomp ts)
            (sym (replicate-pos w.repcount w.lastcomp some_left)),
  )

  read-IsExpansion :
      (n : ℕ) (w : TypeState) (round : ℕ × TypeState) (rest : List ℕ × TypeState)
      → w.repcount ≡ 0
      → bitstream_overflow w.bitbuf ≡ false
      → ReadsToken w.bitbuf w.lastcomp round
      → IsExpansion n round.1 rest
      → IsExpansion (suc n) w (round.0 ∷ rest.0, rest.1)
  read-IsExpansion n w round rest none_left more (t, is_t, expands) (ts, tokens, size, same) = (
    t ∷ ts,
    token more is_t tokens,
    ap suc size,
    ap (λ types. round.0 ∷ types) same
        ∙ expands ts
        ∙ ap (λ count. replicate count w.lastcomp ++ expand w.lastcomp (t ∷ ts)) (sym none_left),
  )

  type_round-IsExpansion :
      (n : ℕ) (w : TypeState) (round : ℕ × TypeState) (rest : List ℕ × TypeState)
      → type_round decoder w ≡ some round
      → IsExpansion n round.1 rest
      → IsExpansion (suc n) w (round.0 ∷ rest.0, rest.1)
  unfolding type_round
  type_round-IsExpansion n w round rest e done = elim (Bool-cases (ltb 0 w.repcount)) [
    | inl repeated ↦
        let result : (w.lastcomp, record w { repcount = w.repcount - 1 }) ≡ round = ground arith in
        let done' = subst (λ r. IsExpansion n r.1 rest) (sym result) done in
        subst (λ r. IsExpansion (suc n) w (r.0 ∷ rest.0, rest.1)) result
          (repeated-IsExpansion n w rest (ground arith) done')
    | inr fresh ↦ elim (Bool-cases (bitstream_overflow w.bitbuf)) [
      | inl used_up ↦ absurd (ground arith)
      | inr more ↦
          let (val, b1) = huffman_decode_one decoder w.bitbuf in
          let result : type_code decoder w.lastcomp (u8 val) b1 ≡ round = ground arith in
          read-IsExpansion n w round rest (ground arith) more
            (subst (ReadsToken w.bitbuf w.lastcomp) result
              (type_code-ReadsToken w.bitbuf w.lastcomp))
            done
    ]
  ]

  -- If the first pass succeeds, it has read a sequence of tokens, before each of which the reader had
  -- not overflowed, and the types of the hunks, one for each, are the expansion of these tokens, less
  -- what is left of the last repetition.
  pub type_pass-IsExpansion :
      (left : ℕ) (w w' : TypeState) (types : List ℕ)
      → type_pass left decoder w ≡ some (types, w')
      → IsExpansion left w (types, w')
  unfolding type_pass
  type_pass-IsExpansion zero w w' types e =
      let same : ([], w) ≡ (types, w') = cc in
      subst (IsExpansion 0 w) same ([], no_more, refl, sym (append-nil _))
  type_pass-IsExpansion (suc left) w w' types e = elim (Option-cases (type_round decoder w)) [
    | inl stopped ↦ ground arith
    | inr (round, first) ↦ elim (Option-cases (type_pass left decoder round.1)) [
      | inl stopped ↦ ground arith
      | inr (rest, later) ↦
          let same : (round.0 ∷ rest.0, rest.1) ≡ (types, w') = ground arith in
          subst (IsExpansion (suc left) w) same (
            type_round-IsExpansion left w round rest first
              (type_pass-IsExpansion left round.1 rest.1 rest.0 later))
    ]
  ]
