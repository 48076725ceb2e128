-- ===== src/MapV5/Offsets.antt =====
-- Where the second pass places the hunks: the stored hunks lie one behind the other.
use libchdr.Prelude.{ℕ, zero, suc, ◌+◌, ◌^◌, ◌≤◌, ◌<◌, ◌≡◌, refl, ap, ◌∙◌, sym, subst, arith}
use libchdr.Prelude.{List, [], ◌∷◌, length, get_elem?, take, u64}
use libchdr.Prelude.{leb, if◌then◌else◌, some}
use libchdr.MapV5.{MapFormat, OffsetState, RawEntry, offset_round, offset_pass}

-- The bytes that an entry takes up in the file.
abbrev pub stored_size : RawEntry → ℕ
stored_size e = if leb e.compression 4 then e.length else 0

abbrev pub total_size : List RawEntry → ℕ
total_size [] = 0
total_size (e ∷ es) = stored_size e + total_size es

module _ (m : MapFormat) where
  length-offset_pass :
      (types : List ℕ) (hunknum : ℕ) (s : OffsetState)
      → length (offset_pass m hunknum types s).0 ≡ length types
  unfolding offset_pass
  length-offset_pass [] hunknum s = refl
  length-offset_pass (type ∷ types) hunknum s =
      ap suc (length-offset_pass types (hunknum + 1) (offset_round m hunknum type s).1)

  offset_round-curoffset :
      (hunknum type : ℕ) (s : OffsetState)
      → s.curoffset < 2 ^ 64
      → (offset_round m hunknum type s).1.curoffset
        ≡ u64 (s.curoffset + stored_size (offset_round m hunknum type s).0)
  unfolding offset_round
  offset_round-curoffset hunknum type s h = ground arith

  offset_round-offset :
      (hunknum type : ℕ) (s : OffsetState)
      → (offset_round m hunknum type s).0.compression ≤ 4
      → (offset_round m hunknum type s).0.offset ≡ s.curoffset
  unfolding offset_round
  offset_round-offset hunknum type s h = ground arith

  -- A stored hunk, compressed or not, begins where the stored hunks before it end; the first one
  -- begins at the start offset. Offsets are modulo 2 ^ 64.
  pub offset_pass-contiguous :
      (types : List ℕ) (hunknum : ℕ) (s : OffsetState) (i : ℕ) (e : RawEntry)
      → s.curoffset < 2 ^ 64
      → get_elem? (offset_pass m hunknum types s).0 i ≡ some e
      → e.compression ≤ 4
      → e.offset ≡ u64 (s.curoffset + total_size (take i (offset_pass m hunknum types s).0))
  unfolding offset_pass
  offset_pass-contiguous [] hunknum s i e h at stored = cc
  offset_pass-contiguous (type ∷ types) hunknum s zero e h at stored =
      let same : (offset_round m hunknum type s).0 ≡ e = ground arith in
      subst (λ x. x.offset ≡ u64 (s.curoffset + 0)) same
        (offset_round-offset hunknum type s (subst (λ x. x.compression ≤ 4) (sym same) stored)
          ∙ omega (arith, h))
  offset_pass-contiguous (type ∷ types) hunknum s (suc i) e h at stored =
      let s' = (offset_round m hunknum type s).1 in
      let moved = offset_round-curoffset hunknum type s h in
      offset_pass-contiguous types (hunknum + 1) s' i e (omega (arith, moved)) at stored
      ∙ omega (arith, moved)
