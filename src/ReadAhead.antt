-- ===== src/ReadAhead.antt =====
-- Reading the stored bytes of a hunk, in src/libchdr_chd.c: `hunk_read_compressed` and
-- `hunk_read_uncompressed` with the read-ahead window, `chd_set_cache_budget` and `chd_precache`.
-- Reading the file goes through the callbacks of its owner: `seek_and_read` is an argument, which
-- returns the bytes or `none` where a callback fails. `size_t` has 64 bits.
pub mod Window
pub mod Refill
pub mod Sound
pub mod Compressed
pub mod Serve
pub mod Budget
pub mod Memory
mod Tests
use libchdr.Prelude.{ℕ, ◌+◌, ◌-◌, ◌^◌, min, u64, List, [], Bool, true, false, ltb, leb, ◌==◌, ◌&&◌}
use libchdr.Prelude.{◌||◌, if◌then◌else◌, Option, none, some}
use libchdr.Prelude.{length, take}
use libchdr.Prelude.Slices.{slice, overwrite}
use libchdr.Errors.{ChdError, no_error, out_of_memory, read_error}

-- The fields of `struct _chd_file` for reading: the copy of the file, if there is one, the size of
-- the file, `hunkbytes` of the header, the buffer of a compressed hunk, and the window.
pub record Reader : Type 0 where
  pub file_cache : Option (List ℕ)
  pub file_size : ℕ
  pub hunkbytes : ℕ
  pub compressed : List ℕ
  pub ra_buf : Option (List ℕ)
  pub ra_capacity : ℕ
  pub ra_off : ℕ
  pub ra_valid : ℕ
  pub ra_hits : ℕ
  pub ra_misses : ℕ

-- Whether the window holds the bytes, as the code tests it.
abbrev pub in_window : Reader → ℕ → ℕ → Bool
in_window r offset size =
    leb r.ra_off offset && leb (u64 (offset + size)) (u64 (r.ra_off + r.ra_valid))

-- Whether a range is outside of the copy of the file, as the code tests it.
abbrev pub outside_file : Reader → ℕ → ℕ → Bool
outside_file r offset size =
    ltb r.file_size (u64 (offset + size)) || ltb (u64 (offset + size)) offset

-- The contents of the buffer.
abbrev pub buffered : Reader → List ℕ
buffered r = elim r.ra_buf [ none ↦ [] | some buf ↦ buf ]

-- How many bytes of the window a miss keeps.
unfoldable pub kept : Reader → ℕ → ℕ
kept r offset =
    let end = u64 (r.ra_off + r.ra_valid) in
    if leb r.ra_off offset && ltb offset end then u64 (end + 2 ^ 64 - offset) else 0

-- `memmove(ra_buf, ra_buf + (offset - ra_off), keep)`
unfoldable pub moved : List ℕ → Reader → ℕ → List ℕ
unfolding kept
moved buf r offset = overwrite buf 0 (slice buf (offset - r.ra_off) (kept r offset))

-- The `size` bytes at `compressed`, after the bytes of a read are written there. What would go behind
-- the end of the buffer is not in it.
unfoldable pub into_compressed : ℕ → Option (List ℕ) × Reader → Option (List ℕ) × Reader
into_compressed size (none, r) = (none, r)
into_compressed size (some bytes, r) =
    let written = take (length r.compressed) (overwrite r.compressed 0 bytes) in
    (some (slice written 0 size), record r { compressed = written })

module _ (seek_and_read : ℕ → ℕ → Option (List ℕ)) where
  -- A miss that does not go backwards: whether the window now has the bytes. What a read that fails
  -- leaves in the buffer is not used, since no byte of it is valid then.
  unfoldable pub refill : List ℕ → Reader → ℕ → ℕ → Bool × Reader
  unfolding kept moved
  refill buf r offset size =
      let keep = kept r offset in
      let buf' = moved buf r offset in
      let fill_at = u64 (offset + keep) in
      let want = u64 (r.ra_capacity + 2 ^ 64 - keep) in
      if ltb 0 want && ltb fill_at r.file_size
      then (let avail = min (r.file_size - fill_at) want in
          elim (seek_and_read fill_at avail) [
            | none ↦ (false, record r { ra_buf = some buf'; ra_valid = 0 })
            | some bytes ↦
                let valid = u64 (keep + avail) in
                (
                  leb (u64 (offset + size)) (u64 (offset + valid)),
                  record r {
                    ra_buf = some (overwrite buf' keep bytes);
                    ra_off = offset;
                    ra_valid = valid;
                    ra_misses = u64 (r.ra_misses + 1);
                  },
                )
          ])
      else (leb size keep, record r { ra_buf = some buf'; ra_off = offset; ra_valid = keep })

  -- The bytes from the window, or `none` where they are to be read from the file.
  unfoldable pub window_read : List ℕ → Reader → ℕ → ℕ → Option (List ℕ) × Reader
  unfolding refill
  window_read buf r offset size =
      if in_window r offset size
      then (some (slice buf (offset - r.ra_off) size), record r { ra_hits = u64 (r.ra_hits + 1) })
      else if ltb offset r.ra_off
      then (none, record r { ra_misses = u64 (r.ra_misses + 1) })
      else let (have, r') = refill buf r offset size in
        (if have then some (slice (buffered r') (offset - r'.ra_off) size) else none, r')

  -- The window first, then the file.
  unfoldable pub read_through : List ℕ → Reader → ℕ → ℕ → Option (List ℕ) × Reader
  unfolding window_read
  read_through buf r offset size =
      let (hit, r') = window_read buf r offset size in
      elim hit [ some bytes ↦ (some bytes, r') | none ↦ (seek_and_read offset size, r') ]

  -- The compressed bytes of a hunk, or `none` for a null pointer.
  unfoldable pub hunk_read_compressed : Reader → ℕ → ℕ → Option (List ℕ) × Reader
  unfolding read_through into_compressed
  hunk_read_compressed r offset size = elim r.file_cache [
    | some cache ↦ (if outside_file r offset size then none else some (slice cache offset size), r)
    | none ↦
        if ltb r.hunkbytes size
        then (none, r)
        else into_compressed size (elim r.ra_buf [
          | none ↦ (seek_and_read offset size, r)
          | some buf ↦
              if leb size r.ra_capacity
              then read_through buf r offset size
              else (seek_and_read offset size, r)
        ])
  ]

  -- The bytes that are written to the start of `dest`, or `none` for `CHDERR_READ_ERROR`.
  unfoldable pub hunk_read_uncompressed : Reader → ℕ → ℕ → Option (List ℕ) × Reader
  hunk_read_uncompressed r offset size = elim r.file_cache [
    | some cache ↦ (if outside_file r offset size then none else some (slice cache offset size), r)
    | none ↦ elim r.ra_buf [
      | none ↦ (seek_and_read offset size, r)
      | some buf ↦
          if in_window r offset size
          then (
            some (slice buf (offset - r.ra_off) size),
            record r { ra_hits = u64 (r.ra_hits + 1) },
          )
          else (seek_and_read offset size, r)
    ]
  ]

  -- `malloc` may fail; what it returns is overwritten.
  pub chd_precache : Bool → Reader → ChdError × Reader
  chd_precache malloc_ok r = elim r.file_cache [
    | some cache ↦ (no_error, r)
    | none ↦
        if malloc_ok
        then elim (seek_and_read 0 r.file_size) [
          | none ↦ (read_error, r)
          | some bytes ↦ (no_error, record r { file_cache = some bytes })
        ]
        else (out_of_memory, r)
  ]

-- The first argument is `malloc`, which returns unknown bytes or fails.
pub chd_set_cache_budget : (ℕ → Option (List ℕ)) → ℕ → Reader → ChdError × Reader
chd_set_cache_budget malloc bytes r =
    let released : Reader = elim r.ra_buf [
      | none ↦ r
      | some buf ↦ record r { ra_buf = none; ra_capacity = 0; ra_valid = 0; ra_off = 0 }
    ] in
    if (bytes == 0) || ltb bytes r.hunkbytes then (no_error, released) else elim (malloc bytes) [
      | none ↦ (out_of_memory, released)
      | some buf ↦ (
        no_error,
        record released {
          ra_buf = some buf;
          ra_capacity = bytes;
          ra_off = 0;
          ra_valid = 0;
          ra_hits = 0;
          ra_misses = 0;
        },
      )
    ]
