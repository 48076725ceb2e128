-- ===== src/ReadAhead/Refill.antt =====
-- A miss keeps the window right: the bytes that it keeps are moved to the front, and those that it
-- reads are put behind them.
use libchdr.Prelude.{ℕ, ◌+◌, ◌-◌, ◌^◌, ◌≤◌, ◌<◌, ◌≡◌, ◌∙◌, refl, subst, arith}
use libchdr.Prelude.{List, length, true, ltb}
use libchdr.Prelude.{Bool-cases, inl, inr}
use libchdr.Prelude.Slices.{slice, overwrite, get_elem?-slice, get_elem?-overwrite}
use libchdr.Prelude.Slices.{length-overwrite}
use libchdr.ReadAhead.{Reader, kept, moved}
use libchdr.ReadAhead.Window.{IsRange, IsFilled, IsFilled-IsRange}

-- The bytes that are read, behind those that were kept.
pub overwrite-IsFilled :
    (file buf bytes : List ℕ) (capacity offset keep avail : ℕ)
    → IsFilled file buf capacity offset keep
    → IsRange file (offset + keep) avail bytes
    → keep + avail ≤ capacity
    → offset + (keep + avail) < 2 ^ 64
    → IsFilled file (overwrite buf keep bytes) capacity offset (keep + avail)
overwrite-IsFilled file buf bytes capacity offset keep avail v (same, size) fits no_wrap =
    let room : keep + length bytes ≤ length buf = omega (arith, size, v.buf_size) in
    record {
      buf_size = length-overwrite buf keep bytes room ∙ v.buf_size;
      within = fits;
      no_wrap = no_wrap;
      held = λ j below.
          get_elem?-overwrite buf keep bytes j room ∙ (elim (Bool-cases (ltb j keep)) [
            | inl old ↦ rw old (v.held j (ground arith))
            | inr new ↦
                let read : ltb j (keep + length bytes) ≡ true = ground (arith, size) in
                let within : ltb (j - keep) avail ≡ true = ground arith in
                let place : offset + keep + (j - keep) ≡ offset + j = ground arith in
                rw (new, read, same)
                  (get_elem?-slice file (offset + keep) avail (j - keep) ∙ rw (within, place) refl)
          ]);
    }

-- Nothing is held, anywhere.
pub empty-IsFilled :
    (file buf : List ℕ) (capacity offset : ℕ)
    → length buf ≡ capacity
    → offset < 2 ^ 64
    → IsFilled file buf capacity offset 0
empty-IsFilled file buf capacity offset size small = record {
  buf_size = size;
  within = omega arith;
  no_wrap = omega arith;
  held = λ j below. absurd (omega arith);
}

module _ (file buf : List ℕ) (r : Reader) (offset : ℕ) where
  pub kept-le :
      IsFilled file buf r.ra_capacity r.ra_off r.ra_valid
      → offset < 2 ^ 64
      → (kept r offset ≤ r.ra_valid) × (offset + kept r offset < 2 ^ 64)
  unfolding kept
  kept-le v small = let wrap_free = v.no_wrap in ground arith

  kept-pos :
      IsFilled file buf r.ra_capacity r.ra_off r.ra_valid
      → offset < 2 ^ 64
      → 0 < kept r offset
      → (r.ra_off ≤ offset) × (offset + kept r offset ≡ r.ra_off + r.ra_valid)
  unfolding kept
  kept-pos v small some_kept = let wrap_free = v.no_wrap in ground arith

  kept-IsRange :
      IsFilled file buf r.ra_capacity r.ra_off r.ra_valid
      → offset < 2 ^ 64
      → IsRange file offset (kept r offset) (slice buf (offset - r.ra_off) (kept r offset))
  kept-IsRange v small = elim (Bool-cases (ltb 0 (kept r offset))) [
    | inl some_kept ↦
        let (from, end) = kept-pos v small (ground arith) in
        IsFilled-IsRange file buf r.ra_capacity r.ra_off r.ra_valid offset (kept r offset) v from
          (omega (arith, end))
    | inr none_kept ↦ let zero_kept : kept r offset ≡ 0 = ground arith in rw zero_kept (refl, refl)
  ]

  -- The bytes that are kept, at the front.
  pub moved-IsFilled :
      IsFilled file buf r.ra_capacity r.ra_off r.ra_valid
      → offset < 2 ^ 64
      → IsFilled file (moved buf r offset) r.ra_capacity offset (kept r offset)
  unfolding moved
  moved-IsFilled v small =
      let (le, no_wrap) = kept-le v small in
      let start = empty-IsFilled file buf r.ra_capacity offset v.buf_size small in
      let here : offset + 0 ≡ offset = omega arith in
      let all : 0 + kept r offset ≡ kept r offset = omega arith in
      subst (IsFilled file (moved buf r offset) r.ra_capacity offset) all (
        overwrite-IsFilled file buf (slice buf (offset - r.ra_off) (kept r offset)) r.ra_capacity
          offset 0 (kept r offset) start (rw here (kept-IsRange v small))
          (omega (arith, v.within, le)) (omega (arith, no_wrap)))
