-- ===== src/Hunk/Total.antt =====
-- `hunk_read_into_memory` as a whole: each call ends, with the hunk or with an error, and keeps the
-- windows and the caches right.
use libchdr.Prelude.{ℕ, zero, suc, ◌<◌, ◌≡◌, refl, ap, arith}
use libchdr.Prelude.{List, [], ◌∷◌, length, ltb, leb}
use libchdr.Prelude.{Option, Bool, true, false, if◌then◌else◌, Bool-cases, inl, inr}
use libchdr.Prelude.{none, some}
use libchdr.Errors.{invalid_file}
use libchdr.Hunk.State.{ChdFile, Environment, ReadHunk, Outcome, error}
use libchdr.Hunk.Read.{hunk_open, hunk_step, hunk_self, hunk_at, hunk_read_into_memory, chd_read}
use libchdr.Hunk.Spec.{Source, refused}
use libchdr.Hunk.Invariant.{
  IsEnvironment, IsOpen, IsChain, no_file, file_of, Answers, HasSize, source,
}
use libchdr.Hunk.FromFile.{}
use libchdr.Hunk.FromReferences.{IsReader, IsReaderBelow}
use libchdr.Hunk.Entries.{read_legacy-Answers, read_v5-Answers}

module _ (env : Environment) (e : IsEnvironment env) (hunkbytes : ℕ) where
  hunk_open-Answers :
      {ss : List Source} {parents : List ChdFile} (file : List ℕ) (chd : ChdFile)
      (self parent : ReadHunk) (n : ℕ) (dest : Option (List ℕ))
      → HasSize env hunkbytes dest
      → IsReaderBelow env hunkbytes n (source file chd ∷ ss) self
      → IsReader env hunkbytes ss parent
      → IsOpen env hunkbytes file ss chd
      → IsChain env hunkbytes ss parents
      → Answers env hunkbytes
          (source file chd ∷ ss)
          n
          (hunk_open env self parent chd parents n dest)
  unfolding hunk_open
  hunk_open-Answers file chd self parent n none sized selfs reads v c =
      elim (Bool-cases (leb chd.header.totalhunks n)) [
        | inl out ↦ rw (out, hunk_open) (refused, file_of v c)
        | inr inside ↦ rw (inside, hunk_open) (refused, file_of v c)
      ]
  hunk_open-Answers file chd self parent n (some dest) sized selfs reads v c =
      let size = sized dest refl in
      elim (Bool-cases (leb chd.header.totalhunks n)) [
        | inl out ↦ rw (out, hunk_open) (refused, file_of v c)
        | inr inside ↦ elim (Bool-cases (ltb chd.header.version 5)) [
          | inl old ↦
              rw (inside, old, hunk_open)
                (read_legacy-Answers env e hunkbytes file chd self parent n dest size (ground arith)
                  v selfs reads c (ground arith))
          | inr new ↦
              rw (inside, new, hunk_open)
                (read_v5-Answers env e hunkbytes file chd self parent n dest size (ground arith) v
                  selfs reads c (ground arith))
        ]
      ]

  either-Answers :
      {ss : List Source} {n : ℕ} (b : Bool) (x y : Outcome)
      → Answers env hunkbytes ss n x
      → Answers env hunkbytes ss n y
      → Answers env hunkbytes ss n (if b then x else y)
  either-Answers true x y left right = left
  either-Answers false x y left right = right

  -- One call, if the calls that it makes answer.
  hunk_step-Answers :
      {ss : List Source} (self parent : ReadHunk) (n : ℕ) (dest : Option (List ℕ))
      (chds : List ChdFile)
      → 0 < length chds
      → HasSize env hunkbytes dest
      → ((s : Source) (ss' : List Source)
          → ss ≡ s ∷ ss'
          → IsReaderBelow env hunkbytes n ss self × IsReader env hunkbytes ss' parent)
      → IsChain env hunkbytes ss chds
      → Answers env hunkbytes ss n (hunk_step env self parent n dest chds)
  unfolding hunk_step
  hunk_step-Answers self parent n dest [] some_file sized calls c = absurd (omega arith)
  hunk_step-Answers self parent n dest (chd ∷ parents) some_file sized calls
        (file_of {file} {ss} v c) =
      let (selfs, reads) = calls (source file chd) ss refl in
      either-Answers chd.has_callbacks (hunk_open env self parent chd parents n dest)
        (error invalid_file, chd ∷ parents)
        (hunk_open-Answers file chd self parent n dest sized selfs reads v c) (refused, file_of v c)

  -- The inner fuel is enough for the hunks below it.
  hunk_self-Answers :
      {ss : List Source} (parent : ReadHunk)
      → ((s : Source) (ss' : List Source) → ss ≡ s ∷ ss' → IsReader env hunkbytes ss' parent)
      → (fuel : ℕ) → IsReaderBelow env hunkbytes fuel ss (hunk_self env parent fuel)
  unfolding hunk_self
  hunk_self-Answers parent parents zero n dest chds below some_file sized c = absurd (omega arith)
  hunk_self-Answers parent parents (suc fuel) n dest chds below some_file sized c =
      hunk_step-Answers (hunk_self env parent fuel) parent n dest chds some_file sized
        (λ s ss' same. (
          λ m d cs earlier. hunk_self-Answers parent parents fuel m d cs (omega arith),
          parents s ss' same,
        ))
        c

  -- The outer fuel is enough for fewer files.
  hunk_at-Answers :
      (depth : ℕ) (ss : List Source)
      → length ss < depth
      → IsReader env hunkbytes ss (hunk_at env depth)
  unfolding hunk_at
  hunk_at-Answers zero ss enough n dest chds some_file sized c = absurd (omega arith)
  hunk_at-Answers (suc depth) ss enough n dest chds some_file sized c =
      hunk_self-Answers (hunk_at env depth)
        (λ s ss' same.
          hunk_at-Answers depth ss' (let size = ap (λ x. length x) same in omega (arith, size)))
        (suc n) n dest chds (omega arith) some_file sized c

  length-IsChain :
      {ss : List Source} {chds : List ChdFile}
      → IsChain env hunkbytes ss chds
      → length ss ≡ length chds
  length-IsChain no_file = refl
  length-IsChain (file_of v c) = ap suc (length-IsChain c)

  pub hunk_read_into_memory-Answers :
      (ss : List Source) (chd : ChdFile) (parents : List ChdFile) (n : ℕ) (dest : Option (List ℕ))
      → IsChain env hunkbytes ss (chd ∷ parents)
      → HasSize env hunkbytes dest
      → Answers env hunkbytes ss n (hunk_read_into_memory env n dest (chd ∷ parents))
  unfolding hunk_read_into_memory
  hunk_read_into_memory-Answers ss chd parents n dest c sized =
      hunk_at-Answers (suc (length (chd ∷ parents))) ss (omega (arith, length-IsChain c)) n dest
        (chd ∷ parents) (omega arith) sized c

  -- The same of `chd_read`.
  pub chd_read-Answers :
      (ss : List Source) (chds : List ChdFile) (n : ℕ) (buffer : Option (List ℕ))
      → IsChain env hunkbytes ss chds
      → HasSize env hunkbytes buffer
      → Answers env hunkbytes ss n (chd_read env n buffer chds)
  unfolding chd_read
  chd_read-Answers ss [] n buffer no_file sized = (refused, no_file)
  chd_read-Answers ss (chd ∷ parents) n buffer c sized =
      elim (Bool-cases (leb chd.header.totalhunks n)) [
        | inl out ↦ rw (out, chd_read) (refused, c)
        | inr inside ↦
            rw (inside, chd_read) (hunk_read_into_memory-Answers ss chd parents n buffer c sized)
      ]
