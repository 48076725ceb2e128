-- ===== src/Hunk/FromReferences.antt =====
-- The cases that read a hunk of the parent or an earlier hunk of the same file do so too, if the calls
-- of the function itself do.
use libchdr.Prelude.{ℕ, ◌+◌, ◌-◌, ◌*◌, ◌/◌, ◌%◌, ◌<◌, ◌≡◌, refl, sym, subst, ap, ◌∙◌, arith}
use libchdr.Prelude.{List, [], ◌∷◌, length, u32, true, false, ◌==◌}
use libchdr.Prelude.{Option, some, Bool-cases, inl, inr}
use libchdr.Prelude.Slices.{overwrite-halves}
use libchdr.MapV5.{compression_parent}
use native.Mathlib.Nat.{mod-lt, mod-eq_of_lt, add-mul}
use libchdr.Hunk.State.{
  ChdFile, Environment, ReadHunk, Outcome, HunkResult, ok, error, undefined, out_of_fuel,
}
use libchdr.Hunk.Stored.{block_type, block_offs}
use libchdr.Hunk.References.{
  with_parent, from_parent, joined, second_half, first_half, units_in_hunk, v5_parent,
}
use libchdr.Hunk.Spec.{
  Source, IsHunk, IsAnswer, delivered, refused, IsBlock, units, block_parent, block_between,
}
use libchdr.Hunk.Invariant.{
  IsEnvironment, IsOpen, IsChain, no_file, file_of, Answers, HasSize, source, length-IsHunk,
  IsChain-some,
}

module _ (env : Environment) (hunkbytes : ℕ) where
  -- A call of the function itself, for the hunks with a number below the bound.
  abbrev pub IsReaderBelow : ℕ → List Source → ReadHunk → Type 0
  IsReaderBelow bound ss read =
      (n : ℕ) (dest : Option (List ℕ)) (chds : List ChdFile)
      → n < bound
      → 0 < length chds
      → HasSize env hunkbytes dest
      → IsChain env hunkbytes ss chds
      → Answers env hunkbytes ss n (read n dest chds)

  -- A call for any hunk of the parent.
  abbrev pub IsReader : List Source → ReadHunk → Type 0
  IsReader ss read =
      (n : ℕ) (dest : Option (List ℕ)) (chds : List ChdFile)
      → 0 < length chds
      → HasSize env hunkbytes dest
      → IsChain env hunkbytes ss chds
      → Answers env hunkbytes ss n (read n dest chds)

  pub some-HasSize : (dest : List ℕ) → length dest ≡ hunkbytes → HasSize env hunkbytes (some dest)
  some-HasSize dest sized bytes same =
      let eq : dest ≡ bytes = cc in subst (λ x. length x ≡ hunkbytes) eq sized

  pub no-IsHunk : {n : ℕ} {bytes : List ℕ} → IsHunk env [] n bytes → false ≡ true
  no-IsHunk h = elim h [ ]

  pub IsAnswer-map :
      {ss ss' : List Source} {m n : ℕ} {result : HunkResult}
      → ((bytes : List ℕ) → IsHunk env ss m bytes → IsHunk env ss' n bytes)
      → IsAnswer env ss m result
      → IsAnswer env ss' n result
  IsAnswer-map f (delivered h) = delivered (f _ h)
  IsAnswer-map f refused = refused

  module _ (file : List ℕ) (chd : ChdFile) where
    pub with_parent-Answers :
        {ss : List Source} {parents : List ChdFile} (parent : ReadHunk) (m n : ℕ)
        (dest : Option (List ℕ))
        → IsOpen env hunkbytes file ss chd
        → IsReader ss parent
        → 0 < length parents
        → IsChain env hunkbytes ss parents
        → HasSize env hunkbytes dest
        → ((bytes : List ℕ) → IsHunk env ss m bytes → IsHunk env (source file chd ∷ ss) n bytes)
        → Answers env hunkbytes (source file chd ∷ ss) n (with_parent parent chd parents m dest)
    with_parent-Answers parent m n dest v reads some_file c sized lift =
        let (answer, c') = reads m dest _ some_file sized c in
        (IsAnswer-map lift answer, file_of v c')

    pub from_parent-Answers :
        {ss : List Source} {parents : List ChdFile} (parent : ReadHunk) (m n : ℕ)
        (dest : Option (List ℕ))
        → IsOpen env hunkbytes file ss chd
        → IsReader ss parent
        → IsChain env hunkbytes ss parents
        → HasSize env hunkbytes dest
        → ((bytes : List ℕ) → IsHunk env ss m bytes → IsHunk env (source file chd ∷ ss) n bytes)
        → Answers env hunkbytes (source file chd ∷ ss) n (from_parent parent chd parents m dest)
    unfolding from_parent
    from_parent-Answers parent m n dest v reads no_file sized lift = (refused, file_of v no_file)
    from_parent-Answers parent m n dest v reads (file_of v' c) sized lift =
        with_parent-Answers parent m n dest v reads (omega arith) (file_of v' c) sized lift

    -- The units of the parent that a hunk begins with.
    module _ {p : Source} {ss : List Source} (n : ℕ) (v : IsOpen env hunkbytes file (p ∷ ss) chd)
        (block : IsBlock (source file chd) n)
        (type : block_type chd.header n ≡ compression_parent) where
      abbrev offs : ℕ
      offs = block_offs chd.header n

      abbrev count : ℕ
      count = units chd.header

      abbrev Both : List ℕ → List ℕ → Type 0
      Both front back =
          IsHunk env (p ∷ ss) (offs / count) front × IsHunk env (p ∷ ss) (offs / count + 1) back

      joined-IsHunk :
          (dest front back : List ℕ)
          → length dest ≡ hunkbytes
          → length front ≡ hunkbytes
          → length back ≡ hunkbytes
          → Both front back
          → IsHunk env
              (source file chd ∷ p ∷ ss)
              n
              (joined chd.header.unitbytes count (offs % count) dest front back)
      joined-IsHunk dest front back sized one two (h, h') =
          let u = (v.well_formed.blocks block.0 n block.1).aligned type in
          let q = offs % count in
          let ub = chd.header.unitbytes in
          let below : q < count = mod-lt offs u.0 in
          let parts : q + (count - q) ≡ count = omega arith in
          let sum : q * ub + (count - q) * ub ≡ chd.header.hunkbytes =
            sym (add-mul q (count - q) ub) ∙ ap (λ k. k * ub) parts ∙ u.2 in
          let all = sum ∙ v.same_size in
          let same =
            overwrite-halves front back dest (q * ub) ((count - q) * ub) (one ∙ sym all)
              (two ∙ sym all) (sized ∙ sym all) in
          let size : q * ub + (count - q) * ub ≡ chd.header.hunkbytes = sum in
          subst (IsHunk env (source file chd ∷ p ∷ ss) n) (sym (same ∙ rw size refl))
            (block_between block type h h')

      second_half-Answers :
          (dest front : List ℕ) (answer : Outcome)
          → IsEnvironment env
          → length dest ≡ hunkbytes
          → length front ≡ hunkbytes
          → IsHunk env (p ∷ ss) (offs / count) front
          → Answers env hunkbytes (p ∷ ss) (offs / count + 1) answer
          → Answers env hunkbytes
              (source file chd ∷ p ∷ ss)
              n
              (second_half chd count (offs % count) dest front answer)
      second_half-Answers dest front (ok back, parents) e sized one h (delivered h', c) = (
        delivered
            (joined-IsHunk dest front back sized one (length-IsHunk env hunkbytes e c h') (h, h')),
        file_of v c,
      )
      second_half-Answers dest front (error err, parents) e sized one h (refused, c) =
          (refused, file_of v c)
      second_half-Answers dest front (undefined, parents) e sized one h (answer, c) =
          elim answer [ ]
      second_half-Answers dest front (out_of_fuel, parents) e sized one h (answer, c) =
          elim answer [ ]

      first_half-Answers :
          (parent : ReadHunk) (dest : List ℕ) (answer : Outcome)
          → IsEnvironment env
          → length dest ≡ hunkbytes
          → IsReader (p ∷ ss) parent
          → Answers env hunkbytes (p ∷ ss) (offs / count) answer
          → Answers env hunkbytes
              (source file chd ∷ p ∷ ss)
              n
              (first_half parent chd offs count (offs % count) dest answer)
      first_half-Answers parent dest (ok front, parents) e sized reads (delivered h, c) =
          let u = (v.well_formed.blocks block.0 n block.1).aligned type in
          let one = length-IsHunk env hunkbytes e c h in
          let number : u32 (offs / count + 1) ≡ offs / count + 1 = mod-eq_of_lt u.3 in
          rw number (
            second_half-Answers dest front _ e sized one h (
              reads (offs / count + 1) (some front) parents (IsChain-some env hunkbytes c)
                (some-HasSize front one) c))
      first_half-Answers parent dest (error err, parents) e sized reads (refused, c) =
          (refused, file_of v c)
      first_half-Answers parent dest (undefined, parents) e sized reads (answer, c) =
          elim answer [ ]
      first_half-Answers parent dest (out_of_fuel, parents) e sized reads (answer, c) =
          elim answer [ ]

      v5_parent-found :
          {parents : List ChdFile} (parent : ReadHunk) (dest : List ℕ)
          → IsEnvironment env
          → length dest ≡ hunkbytes
          → IsReader (p ∷ ss) parent
          → IsChain env hunkbytes (p ∷ ss) parents
          → Answers env hunkbytes
              (source file chd ∷ p ∷ ss)
              n
              (v5_parent env parent chd parents n dest)
      unfolding v5_parent
      v5_parent-found parent dest e sized reads (file_of {chd = chd'} {chds} v' c) =
          let u = (v.well_formed.blocks block.0 n block.1).aligned type in
          let bytes : units_in_hunk chd.header ≡ count = mod-eq_of_lt u.1 in
          let some_units : (count == 0) ≡ false = let pos = u.0 in ground arith in
          let number : u32 (offs / count) ≡ offs / count = mod-eq_of_lt (omega (arith, u.3)) in
          elim (Bool-cases (offs % count == 0)) [
            | inl multiple ↦
                rw (bytes, some_units, multiple, number, v5_parent)
                  (with_parent-Answers parent (offs / count) n (some dest) v reads (omega arith)
                    (file_of v' c) (some-HasSize dest sized)
                    (λ b h. block_parent block type (ground arith) h))
            | inr between ↦
                rw (bytes, some_units, between, number, v5_parent)
                  (first_half-Answers parent dest _ e sized reads (
                    reads (offs / count) (env.malloc chd.header.hunkbytes) (chd' ∷ chds)
                      (omega arith) (λ b got. e.allocated chd.header.hunkbytes b got ∙ v.same_size)
                      (file_of v' c)))
          ]

    pub v5_parent-Answers :
        {ss : List Source} {parents : List ChdFile} (parent : ReadHunk) (n : ℕ) (dest : List ℕ)
        → IsEnvironment env
        → IsOpen env hunkbytes file ss chd
        → IsBlock (source file chd) n
        → block_type chd.header n ≡ compression_parent
        → length dest ≡ hunkbytes
        → IsReader ss parent
        → IsChain env hunkbytes ss parents
        → Answers env hunkbytes (source file chd ∷ ss) n (v5_parent env parent chd parents n dest)
    unfolding v5_parent
    v5_parent-Answers parent n dest e v block type sized reads no_file =
        (refused, file_of v no_file)
    v5_parent-Answers parent n dest e v block type sized reads (file_of v' c) =
        v5_parent-found n v block type parent dest e sized reads (file_of v' c)
