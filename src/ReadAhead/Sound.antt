-- ===== src/ReadAhead/Sound.antt =====
-- A read through the window returns the bytes of the file, and leaves the window right.
use libchdr.Prelude.{ℕ, ◌+◌, ◌-◌, ◌^◌, ◌≤◌, ◌<◌, ◌≡◌, refl, sym, subst, arith, min, u64}
use libchdr.Prelude.{List, Bool, true, false, ltb, leb, ◌&&◌, if◌then◌else◌}
use libchdr.Prelude.{Option, none, some, Bool-cases, Option-cases, inl, inr}
use libchdr.Prelude.Slices.{slice, overwrite}
use libchdr.ReadAhead.{Reader, in_window, kept, moved, refill, buffered, window_read, read_through}
use libchdr.ReadAhead.Window.{
  IsRange, Reads, IsFilled, IsWindow, IsFilled-IsRange, in_window-IsRange,
}
use libchdr.ReadAhead.Refill.{kept-le, moved-IsFilled, overwrite-IsFilled, empty-IsFilled}

pub some_if :
    (b : Bool) (xs bytes : List ℕ)
    → (if b then some xs else none) ≡ some bytes
    → (b ≡ true) × (xs ≡ bytes)
some_if true xs bytes e = (refl, cc)
some_if false xs bytes e = absurd (cc)

module _ (file : List ℕ) where
  -- Another window over the same file.
  pub window-IsWindow :
      (r : Reader) (buf : List ℕ) (off valid hits misses : ℕ)
      → IsWindow file r
      → IsFilled file buf r.ra_capacity off valid
      → IsWindow file (record r {
        ra_buf = some buf;
        ra_off = off;
        ra_valid = valid;
        ra_hits = hits;
        ra_misses = misses;
      })
  window-IsWindow r buf off valid hits misses v f = record {
    file_length = v.file_length;
    compressed_size = v.compressed_size;
    small_file = v.small_file;
    small_buffer = v.small_buffer;
    copy = v.copy;
    filled = λ b e.
        let same : buf ≡ b = cc in subst (λ x. IsFilled file x r.ra_capacity off valid) same f;
  }

  pub counted-IsWindow :
      (r : Reader) (hits misses : ℕ)
      → IsWindow file r
      → IsWindow file (record r { ra_hits = hits; ra_misses = misses })
  counted-IsWindow r hits misses v = record {
    file_length = v.file_length;
    compressed_size = v.compressed_size;
    small_file = v.small_file;
    small_buffer = v.small_buffer;
    copy = v.copy;
    filled = v.filled;
  }

  -- What a read is to do: keep the window right, and return the bytes asked for if it returns any.
  abbrev pub Answers : ℕ → ℕ → Option (List ℕ) × Reader → Type 0
  Answers offset size (result, r) =
      IsWindow file r × ((bytes : List ℕ) → result ≡ some bytes → IsRange file offset size bytes)

  abbrev Refilled : ℕ → ℕ → Bool × Reader → Type 0
  Refilled offset size (have, r) =
      IsWindow file r
      × (have ≡ true → IsRange file offset size (slice (buffered r) (offset - r.ra_off) size))

  module _ (seek_and_read : ℕ → ℕ → Option (List ℕ)) (reads : Reads file seek_and_read) where
    -- From the start of the window.
    front-IsRange :
        (buf : List ℕ) (capacity offset valid size : ℕ)
        → IsFilled file buf capacity offset valid
        → size ≤ valid
        → IsRange file offset size (slice buf (offset - offset) size)
    front-IsRange buf capacity offset valid size f h =
        IsFilled-IsRange file buf capacity offset valid offset size f (omega arith) (omega arith)

    refill-Refilled :
        (buf : List ℕ) (r : Reader) (offset size : ℕ)
        → IsWindow file r
        → r.ra_buf ≡ some buf
        → offset + size < 2 ^ 64
        → Refilled offset size (refill seek_and_read buf r offset size)
    unfolding refill
    refill-Refilled buf r offset size v at no_wrap =
        let f = v.filled buf at in
        let small : offset < 2 ^ 64 = omega arith in
        let (le, end) = kept-le file buf r offset f small in
        let keep = kept r offset in
        let front = moved-IsFilled file buf r offset f small in
        let fill_at = u64 (offset + keep) in
        let want = u64 (r.ra_capacity + 2 ^ 64 - keep) in
        let at_end : fill_at ≡ offset + keep = omega (arith, end) in
        let room : want ≡ r.ra_capacity - keep = omega (arith, le, f.within, v.small_buffer) in
        let avail = min (r.file_size - fill_at) want in
        elim (Bool-cases (ltb 0 want && ltb fill_at r.file_size)) [
          | inl more ↦ elim (Option-cases (seek_and_read fill_at avail)) [
            | inl failed ↦
                let result : refill seek_and_read buf r offset size
                    ≡ (false, record r { ra_buf = some (moved buf r offset); ra_valid = 0 }) =
                  rw (more, failed, refill) refl in
                subst (Refilled offset size) (sym result) (
                  window-IsWindow r (moved buf r offset) r.ra_off 0 r.ra_hits r.ra_misses v (
                      empty-IsFilled file (moved buf r offset) r.ra_capacity r.ra_off front.buf_size
                        (omega (arith, f.no_wrap))),
                  λ h. cc,
                )
            | inr (bytes, got) ↦
                let valid = u64 (keep + avail) in
                let before : fill_at < r.file_size = ground arith in
                let sum : valid ≡ keep + avail =
                  omega (arith, room, le, f.within, v.small_buffer) in
                let buf' = overwrite (moved buf r offset) keep bytes in
                let f' : IsFilled file buf' r.ra_capacity offset valid = rw sum (
                  overwrite-IsFilled file (moved buf r offset) bytes r.ra_capacity offset keep avail
                    front
                    (subst (λ x. IsRange file x avail bytes) at_end (reads fill_at avail bytes got))
                    (omega (arith, room, le, f.within))
                    (omega (arith, at_end, before, v.small_file))) in
                let result : refill seek_and_read buf r offset size ≡ (
                  leb (u64 (offset + size)) (u64 (offset + valid)),
                  record r {
                    ra_buf = some buf';
                    ra_off = offset;
                    ra_valid = valid;
                    ra_misses = u64 (r.ra_misses + 1);
                  },
                ) =
                  rw (more, got, refill) refl in
                subst (Refilled offset size) (sym result) (
                  window-IsWindow r buf' offset valid r.ra_hits (u64 (r.ra_misses + 1)) v f',
                  λ h.
                      front-IsRange buf' r.ra_capacity offset valid size f'
                        (let wrap_free = f'.no_wrap in ground arith),
                )
          ]
          | inr full ↦
              let result : refill seek_and_read buf r offset size ≡ (
                leb size keep,
                record r { ra_buf = some (moved buf r offset); ra_off = offset; ra_valid = keep },
              ) =
                rw (full, refill) refl in
              subst (Refilled offset size) (sym result) (
                window-IsWindow r (moved buf r offset) offset keep r.ra_hits r.ra_misses v front,
                λ h.
                    front-IsRange (moved buf r offset) r.ra_capacity offset keep size front
                      (ground arith),
              )
        ]

    window_read-Answers :
        (buf : List ℕ) (r : Reader) (offset size : ℕ)
        → IsWindow file r
        → r.ra_buf ≡ some buf
        → offset + size < 2 ^ 64
        → Answers offset size (window_read seek_and_read buf r offset size)
    unfolding window_read
    window_read-Answers buf r offset size v at no_wrap =
        elim (Bool-cases (in_window r offset size)) [
          | inl hit ↦
              rw (hit, window_read)
                (
                  counted-IsWindow r (u64 (r.ra_hits + 1)) r.ra_misses v,
                  λ bytes e.
                      let same : slice buf (offset - r.ra_off) size ≡ bytes = cc in
                      subst (IsRange file offset size) same
                        (in_window-IsRange file buf r offset size (v.filled buf at) no_wrap hit),
                )
          | inr miss ↦ elim (Bool-cases (ltb offset r.ra_off)) [
            | inl backward ↦
                rw (miss, backward, window_read)
                  (counted-IsWindow r r.ra_hits (u64 (r.ra_misses + 1)) v, λ bytes e. cc)
            | inr forward ↦
                let (v', have) = refill-Refilled buf r offset size v at no_wrap in
                rw (miss, forward, window_read)
                  (
                    v',
                    λ bytes e.
                        let (hit, same) = some_if _ _ bytes e in
                        subst (IsRange file offset size) same (have hit),
                  )
          ]
        ]

    pub read_through-Answers :
        (buf : List ℕ) (r : Reader) (offset size : ℕ)
        → IsWindow file r
        → r.ra_buf ≡ some buf
        → offset + size < 2 ^ 64
        → Answers offset size (read_through seek_and_read buf r offset size)
    unfolding read_through
    read_through-Answers buf r offset size v at no_wrap =
        let (v', right) = window_read-Answers buf r offset size v at no_wrap in
        elim (Option-cases (window_read seek_and_read buf r offset size).0) [
          | inl miss ↦ rw (miss, read_through) (v', reads offset size)
          | inr (bytes, hit) ↦
              rw (hit, read_through)
                (v', λ xs e. subst (IsRange file offset size) (cc) (right bytes hit))
        ]
