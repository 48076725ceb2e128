-- ===== src/ReadAhead/Serve.antt =====
-- The two functions that read the bytes of a hunk return those of the file.
use libchdr.Prelude.{ℕ, ◌+◌, ◌-◌, ◌^◌, ◌≤◌, ◌<◌, ◌≡◌, ◌∙◌, refl, ap, sym, subst, arith, u64}
use libchdr.Prelude.{List, length, Bool, true, false, ltb, leb, if◌then◌else◌}
use libchdr.Prelude.{Option, none, some, Bool-cases, Option-cases, inl, inr}
use libchdr.Prelude.Slices.{slice, length-slice}
use libchdr.ReadAhead.{
  Reader, in_window, outside_file, window_read, read_through, hunk_read_compressed,
  hunk_read_uncompressed,
}
use libchdr.ReadAhead.Window.{IsRange, Reads, ReadsAll, IsWindow, in_window-IsRange}
use libchdr.ReadAhead.Compressed.{
  into_compressed-Answers, into_compressed-some, read_through-hunkbytes,
}
use libchdr.ReadAhead.Sound.{Answers, counted-IsWindow, read_through-Answers}

some_unless :
    (b : Bool) (xs bytes : List ℕ)
    → (if b then none else some xs) ≡ some bytes
    → (b ≡ false) × (xs ≡ bytes)
some_unless true xs bytes e = absurd (cc)
some_unless false xs bytes e = (refl, cc)

module _ (file : List ℕ) where
  module _ (seek_and_read : ℕ → ℕ → Option (List ℕ)) (reads : Reads file seek_and_read) where
    cached-IsRange :
        (r : Reader) (cache : List ℕ) (offset size : ℕ) (bytes : List ℕ)
        → IsWindow file r
        → r.file_cache ≡ some cache
        → offset + size < 2 ^ 64
        → (if outside_file r offset size then none else some (slice cache offset size)) ≡ some bytes
        → IsRange file offset size bytes
    cached-IsRange r cache offset size bytes v at no_wrap e =
        let (inside, same) = some_unless _ _ bytes e in
        let whole : cache ≡ file = v.copy cache at in
        let fits : offset + size ≤ length file = ground (arith, v.file_length, v.small_file) in
        subst (IsRange file offset size) same (
          subst (λ x. IsRange file offset size (slice x offset size)) (sym whole)
            (refl, length-slice file offset size fits))

    -- The bytes that `hunk_read_compressed` returns are those of the file at the offset, as many as it is
    -- asked for, from wherever it takes them: the copy of the file, the window, the refilled window or
    -- the file itself; and the window is right again, if it was right before and `offset + size` fits
    -- into 64 bits. The callbacks return the bytes asked for when they succeed.
    pub hunk_read_compressed-Answers :
        (r : Reader) (offset size : ℕ)
        → IsWindow file r
        → offset + size < 2 ^ 64
        → Answers file offset size (hunk_read_compressed seek_and_read r offset size)
    unfolding hunk_read_compressed
    hunk_read_compressed-Answers r offset size v no_wrap = elim (Option-cases r.file_cache) [
      | inr (cache, at) ↦
          rw (at, hunk_read_compressed)
            (v, λ bytes e. cached-IsRange r cache offset size bytes v at no_wrap e)
      | inl uncached ↦ elim (Bool-cases (ltb r.hunkbytes size)) [
        | inl large ↦ rw (uncached, large, hunk_read_compressed) (v, λ bytes e. cc)
        | inr fits ↦ elim (Option-cases r.ra_buf) [
          | inl off ↦
              rw (uncached, fits, off, hunk_read_compressed)
                (into_compressed-Answers file offset size (seek_and_read offset size, r)
                  (v, reads offset size) (ground arith))
          | inr (buf, at) ↦ elim (Bool-cases (leb size r.ra_capacity)) [
            | inl holds ↦
                let same = read_through-hunkbytes seek_and_read buf r offset size in
                let room : size ≤ r.hunkbytes = ground arith in
                rw (uncached, fits, at, holds, hunk_read_compressed)
                  (into_compressed-Answers file offset size
                    (read_through seek_and_read buf r offset size)
                    (read_through-Answers file seek_and_read reads buf r offset size v at no_wrap)
                    (omega (arith, same, room)))
            | inr too_small ↦
                rw (uncached, fits, at, too_small, hunk_read_compressed)
                  (into_compressed-Answers file offset size (seek_and_read offset size, r)
                    (v, reads offset size) (ground arith))
          ]
        ]
      ]
    ]

    -- The bytes that `hunk_read_uncompressed` returns are those of the file at the offset, as many as it
    -- is asked for, and the window is right again, if it was right before and `offset + size` fits into
    -- 64 bits. The callbacks return the bytes asked for when they succeed.
    pub hunk_read_uncompressed-Answers :
        (r : Reader) (offset size : ℕ)
        → IsWindow file r
        → offset + size < 2 ^ 64
        → Answers file offset size (hunk_read_uncompressed seek_and_read r offset size)
    unfolding hunk_read_uncompressed
    hunk_read_uncompressed-Answers r offset size v no_wrap = elim (Option-cases r.file_cache) [
      | inr (cache, at) ↦
          rw (at, hunk_read_uncompressed)
            (v, λ bytes e. cached-IsRange r cache offset size bytes v at no_wrap e)
      | inl uncached ↦ elim (Option-cases r.ra_buf) [
        | inl off ↦ rw (uncached, off, hunk_read_uncompressed) (v, reads offset size)
        | inr (buf, at) ↦ elim (Bool-cases (in_window r offset size)) [
          | inl hit ↦
              rw (uncached, at, hit, hunk_read_uncompressed)
                (
                  counted-IsWindow file r (u64 (r.ra_hits + 1)) r.ra_misses v,
                  λ bytes e.
                      let same : slice buf (offset - r.ra_off) size ≡ bytes = cc in
                      subst (IsRange file offset size) same
                        (in_window-IsRange file buf r offset size (v.filled buf at) no_wrap hit),
                )
          | inr miss ↦ rw (uncached, at, miss, hunk_read_uncompressed) (v, reads offset size)
        ]
      ]
    ]

    read_through-some :
        (buf : List ℕ) (r : Reader) (offset size : ℕ)
        → ReadsAll file seek_and_read
        → offset + size ≤ length file
        → (bytes : List ℕ) × ((read_through seek_and_read buf r offset size).0 ≡ some bytes)
    unfolding read_through
    read_through-some buf r offset size all inside =
        elim (Option-cases (window_read seek_and_read buf r offset size).0) [
          | inl miss ↦ rw (miss, read_through) (slice file offset size, all offset size inside)
          | inr (bytes, hit) ↦ rw (hit, read_through) (bytes, refl)
        ]

    cached-some :
        (r : Reader) (cache : List ℕ) (offset size : ℕ)
        → IsWindow file r
        → offset + size ≤ length file
        → (if outside_file r offset size then none else some (slice cache offset size))
          ≡ some (slice cache offset size)
    cached-some r cache offset size v inside =
        let within : outside_file r offset size ≡ false =
          ground (arith, v.file_length, v.small_file) in
        rw within refl

    -- Where the callbacks read every range of the file, a range of the file that is no longer than a
    -- hunk is returned, whatever is in the copy of the file and in the window, if both are right.
    pub hunk_read_compressed-some :
        (r : Reader) (offset size : ℕ)
        → ReadsAll file seek_and_read
        → IsWindow file r
        → offset + size ≤ length file
        → size ≤ r.hunkbytes
        → (hunk_read_compressed seek_and_read r offset size).0 ≡ some (slice file offset size)
    unfolding hunk_read_compressed
    hunk_read_compressed-some r offset size all v inside short =
        let fits : ltb r.hunkbytes size ≡ false = ground arith in
        let exact : (bytes : List ℕ)
            → (hunk_read_compressed seek_and_read r offset size).0 ≡ some bytes
            → (hunk_read_compressed seek_and_read r offset size).0 ≡ some (slice file offset size) =
          λ bytes got.
            got
            ∙ ap some
                ((hunk_read_compressed-Answers r offset size v
                    (omega (arith, v.file_length, v.small_file))).1
                  bytes got).0 in
        let Returned : Type 0 =
          (bytes : List ℕ) × ((hunk_read_compressed seek_and_read r offset size).0 ≡ some bytes) in
        let direct =
          into_compressed-some size (seek_and_read offset size, r) (slice file offset size)
            (all offset size inside) in
        elim (Option-cases r.file_cache) [
          | inr (cache, at) ↦
              exact (slice cache offset size)
                (rw (at, hunk_read_compressed) (cached-some r cache offset size v inside))
          | inl uncached ↦ elim (Option-cases r.ra_buf) [
            | inl off ↦
                let (bytes, got) : Returned =
                  rw (uncached, fits, off, hunk_read_compressed) direct in
                exact bytes got
            | inr (buf, at) ↦ elim (Bool-cases (leb size r.ra_capacity)) [
              | inr too_small ↦
                  let (bytes, got) : Returned =
                    rw (uncached, fits, at, too_small, hunk_read_compressed) direct in
                  exact bytes got
              | inl holds ↦
                  let (found, read) = read_through-some buf r offset size all inside in
                  let (bytes, got) : Returned =
                    rw (uncached, fits, at, holds, hunk_read_compressed)
                      (into_compressed-some size (read_through seek_and_read buf r offset size)
                        found read) in
                  exact bytes got
            ]
          ]
        ]
