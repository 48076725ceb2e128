-- ===== src/ReadAhead/Window.antt =====
-- What the window holds: its valid bytes are those of the file at its offset.
use libchdr.Prelude.{ℕ, ◌+◌, ◌-◌, ◌^◌, ◌≤◌, ◌<◌, ◌≡◌, arith, List, length, get_elem?}
use libchdr.Prelude.{true, Option, some}
use libchdr.Prelude.Slices.{slice, slice_ext, length-slice}
use libchdr.ReadAhead.{Reader, in_window}

-- What a read of `size` bytes at `offset` is to return.
abbrev pub IsRange : List ℕ → ℕ → ℕ → List ℕ → Type 0
IsRange file offset size bytes = (bytes ≡ slice file offset size) × (length bytes ≡ size)

-- The callbacks return the bytes of the file, as many as asked for, when they succeed.
abbrev pub Reads : List ℕ → (ℕ → ℕ → Option (List ℕ)) → Type 0
Reads file seek_and_read =
    (position total_bytes : ℕ) (bytes : List ℕ)
    → seek_and_read position total_bytes ≡ some bytes
    → IsRange file position total_bytes bytes

-- The callbacks read every range of the file.
abbrev pub ReadsAll : List ℕ → (ℕ → ℕ → Option (List ℕ)) → Type 0
ReadsAll file seek_and_read =
    (position total_bytes : ℕ)
    → position + total_bytes ≤ length file
    → seek_and_read position total_bytes ≡ some (slice file position total_bytes)

-- The first `valid` bytes of the buffer are those of the file from `off` on.
pub record IsFilled (file buf : List ℕ) (capacity off valid : ℕ) : Type 0 where
  pub buf_size : length buf ≡ capacity
  pub within : valid ≤ capacity
  pub no_wrap : off + valid < 2 ^ 64
  pub held : (j : ℕ) → j < valid → get_elem? buf j ≡ get_elem? file (off + j)

-- The buffer of a compressed hunk has the size of a hunk.
pub record IsWindow (file : List ℕ) (r : Reader) : Type 0 where
  pub file_length : length file ≡ r.file_size
  pub compressed_size : length r.compressed ≡ r.hunkbytes
  pub small_file : r.file_size < 2 ^ 63
  pub small_buffer : r.ra_capacity < 2 ^ 63
  pub copy : (cache : List ℕ) → r.file_cache ≡ some cache → cache ≡ file
  pub filled :
      (buf : List ℕ) → r.ra_buf ≡ some buf → IsFilled file buf r.ra_capacity r.ra_off r.ra_valid

-- A range inside the valid bytes.
pub IsFilled-IsRange :
    (file buf : List ℕ) (capacity off valid offset size : ℕ)
    → IsFilled file buf capacity off valid
    → off ≤ offset
    → offset + size ≤ off + valid
    → IsRange file offset size (slice buf (offset - off) size)
IsFilled-IsRange file buf capacity off valid offset size v from until = (
  slice_ext buf file (offset - off) offset size λ j below.
      let place : off + (offset - off + j) ≡ offset + j = omega arith in
      let same = v.held (offset - off + j) (omega arith) in rw place at same,
  length-slice buf (offset - off) size (omega (arith, v.buf_size, v.within)),
)

-- The test of the code, where `offset + size` does not wrap.
pub in_window-IsRange :
    (file buf : List ℕ) (r : Reader) (offset size : ℕ)
    → IsFilled file buf r.ra_capacity r.ra_off r.ra_valid
    → offset + size < 2 ^ 64
    → in_window r offset size ≡ true
    → IsRange file offset size (slice buf (offset - r.ra_off) size)
in_window-IsRange file buf r offset size v no_wrap hit =
    let wrap_free = v.no_wrap in
    let both : (r.ra_off ≤ offset) × (offset + size ≤ r.ra_off + r.ra_valid) = ground arith in
    IsFilled-IsRange file buf r.ra_capacity r.ra_off r.ra_valid offset size v both.0 both.1
