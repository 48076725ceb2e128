-- ===== src/ReadAhead/Compressed.antt =====
-- The buffer for the compressed bytes of a hunk: what is written to it fits, and is what is returned.
use libchdr.Prelude.{ℕ, ◌+◌, ◌-◌, ◌^◌, ◌≤◌, ◌≡◌, ◌∙◌, refl, sym, subst, arith, min, u64}
use libchdr.Prelude.{List, length, take, ltb, ◌&&◌, Option, none, some, Bool-cases, Option-cases}
use libchdr.Prelude.{inl, inr, ap}
use libchdr.Prelude.Slices.{
  slice, overwrite, slice_ext, length-overwrite, get_elem?-overwrite, take_all,
}
use libchdr.Prelude.{leb}
use libchdr.ReadAhead.{Reader, in_window, kept, refill, window_read, read_through, into_compressed}
use libchdr.ReadAhead.{hunk_read_compressed, hunk_read_uncompressed}
use libchdr.ReadAhead.Window.{IsRange, IsWindow}
use libchdr.ReadAhead.Sound.{Answers}

-- Bytes that fit into an array are read back from its start.
slice-overwrite :
    (xs bytes : List ℕ)
    → length bytes ≤ length xs
    → slice (take (length xs) (overwrite xs 0 bytes)) 0 (length bytes) ≡ bytes
slice-overwrite xs bytes fits =
    let whole =
      take_all (overwrite xs 0 bytes) (length xs) (length-overwrite xs 0 bytes (omega arith)) in
    let same =
      slice_ext (overwrite xs 0 bytes) bytes 0 0 (length bytes)
        λ j below. ground (arith, get_elem?-overwrite xs 0 bytes j) in
    rw whole (same ∙ take_all bytes (length bytes) refl)

compressed-IsWindow :
    (file : List ℕ) (r : Reader) (compressed : List ℕ)
    → IsWindow file r
    → length compressed ≡ r.hunkbytes
    → IsWindow file (record r { compressed = compressed })
compressed-IsWindow file r compressed v size = record {
  file_length = v.file_length;
  compressed_size = size;
  small_file = v.small_file;
  small_buffer = v.small_buffer;
  copy = v.copy;
  filled = v.filled;
}

pub into_compressed-Answers :
    (file : List ℕ) (offset size : ℕ) (outcome : Option (List ℕ) × Reader)
    → Answers file offset size outcome
    → size ≤ outcome.1.hunkbytes
    → Answers file offset size (into_compressed size outcome)
unfolding into_compressed
into_compressed-Answers file offset size (none, r) answers fits = answers
into_compressed-Answers file offset size (some bytes, r) (v, right) fits =
    let range = right bytes refl in
    let short : length bytes ≤ length r.compressed =
      omega (arith, v.compressed_size, range.1, fits) in
    let written = take (length r.compressed) (overwrite r.compressed 0 bytes) in
    let all = length-overwrite r.compressed 0 bytes (omega arith) in
    let size_written : length written ≡ r.hunkbytes =
      ap (λ xs. length xs) (take_all (overwrite r.compressed 0 bytes) (length r.compressed) all)
      ∙ all
      ∙ v.compressed_size in
    let back : slice written 0 size ≡ bytes =
      subst (λ k. slice written 0 k ≡ bytes) range.1 (slice-overwrite r.compressed bytes short) in
    (
      compressed-IsWindow file r written v size_written,
      λ xs e.
          let same : slice written 0 size ≡ xs = cc in
          subst (IsRange file offset size) (sym back ∙ same) range,
    )

pub into_compressed-some :
    (size : ℕ) (outcome : Option (List ℕ) × Reader) (bytes : List ℕ)
    → outcome.0 ≡ some bytes
    → (xs : List ℕ) × ((into_compressed size outcome).0 ≡ some xs)
unfolding into_compressed
into_compressed-some size (none, r) bytes e = absurd (cc)
into_compressed-some size (some xs, r) bytes e = (_, refl)

-- A read through the window keeps the size of a hunk.
module _ (seek_and_read : ℕ → ℕ → Option (List ℕ)) (buf : List ℕ) (r : Reader)
    (offset size : ℕ) where
  refill-hunkbytes : (refill seek_and_read buf r offset size).1.hunkbytes ≡ r.hunkbytes
  unfolding refill
  refill-hunkbytes =
      let keep = kept r offset in
      let fill_at = u64 (offset + keep) in
      let want = u64 (r.ra_capacity + 2 ^ 64 - keep) in
      elim (Bool-cases (ltb 0 want && ltb fill_at r.file_size)) [
        | inl more ↦
            elim (Option-cases (seek_and_read fill_at (min (r.file_size - fill_at) want))) [
              | inl failed ↦ rw (more, failed, refill) refl
              | inr (bytes, got) ↦ rw (more, got, refill) refl
            ]
        | inr full ↦ rw (full, refill) refl
      ]

  window_read-hunkbytes : (window_read seek_and_read buf r offset size).1.hunkbytes ≡ r.hunkbytes
  unfolding window_read
  window_read-hunkbytes = elim (Bool-cases (in_window r offset size)) [
    | inl hit ↦ rw (hit, window_read) refl
    | inr miss ↦ elim (Bool-cases (ltb offset r.ra_off)) [
      | inl backward ↦ rw (miss, backward, window_read) refl
      | inr forward ↦ rw (miss, forward, window_read) refill-hunkbytes
    ]
  ]

  pub read_through-hunkbytes :
      (read_through seek_and_read buf r offset size).1.hunkbytes ≡ r.hunkbytes
  unfolding read_through
  read_through-hunkbytes = elim (Option-cases (window_read seek_and_read buf r offset size).0) [
    | inl miss ↦ rw (miss, read_through) window_read-hunkbytes
    | inr (bytes, hit) ↦ rw (hit, read_through) window_read-hunkbytes
  ]

into_compressed-hunkbytes :
    (size : ℕ) (outcome : Option (List ℕ) × Reader)
    → (into_compressed size outcome).1.hunkbytes ≡ outcome.1.hunkbytes
unfolding into_compressed
into_compressed-hunkbytes size (none, r) = refl
into_compressed-hunkbytes size (some bytes, r) = refl

-- So do the two functions that read the bytes of a hunk.
module _ (seek_and_read : ℕ → ℕ → Option (List ℕ)) (r : Reader) (offset size : ℕ) where
  pub hunk_read_compressed-hunkbytes :
      (hunk_read_compressed seek_and_read r offset size).1.hunkbytes ≡ r.hunkbytes
  unfolding hunk_read_compressed
  hunk_read_compressed-hunkbytes = elim (Option-cases r.file_cache) [
    | inr (cache, at) ↦ rw (at, hunk_read_compressed) refl
    | inl uncached ↦ elim (Bool-cases (ltb r.hunkbytes size)) [
      | inl large ↦ rw (uncached, large, hunk_read_compressed) refl
      | inr fits ↦ elim (Option-cases r.ra_buf) [
        | inl off ↦
            rw (uncached, fits, off, hunk_read_compressed)
              (into_compressed-hunkbytes size (seek_and_read offset size, r))
        | inr (buf, at) ↦ elim (Bool-cases (leb size r.ra_capacity)) [
          | inl holds ↦
              rw (uncached, fits, at, holds, hunk_read_compressed)
                (into_compressed-hunkbytes size (read_through seek_and_read buf r offset size)
                  ∙ read_through-hunkbytes seek_and_read buf r offset size)
          | inr too_small ↦
              rw (uncached, fits, at, too_small, hunk_read_compressed)
                (into_compressed-hunkbytes size (seek_and_read offset size, r))
        ]
      ]
    ]
  ]

  pub hunk_read_uncompressed-hunkbytes :
      (hunk_read_uncompressed seek_and_read r offset size).1.hunkbytes ≡ r.hunkbytes
  unfolding hunk_read_uncompressed
  hunk_read_uncompressed-hunkbytes = elim (Option-cases r.file_cache) [
    | inr (cache, at) ↦ rw (at, hunk_read_uncompressed) refl
    | inl uncached ↦ elim (Option-cases r.ra_buf) [
      | inl off ↦ rw (uncached, off, hunk_read_uncompressed) refl
      | inr (buf, at) ↦ elim (Bool-cases (in_window r offset size)) [
        | inl hit ↦ rw (uncached, at, hit, hunk_read_uncompressed) refl
        | inr miss ↦ rw (uncached, at, miss, hunk_read_uncompressed) refl
      ]
    ]
  ]
