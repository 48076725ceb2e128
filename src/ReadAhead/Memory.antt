-- ===== src/ReadAhead/Memory.antt =====
-- A file in memory: callbacks that read every range of a list of bytes, and the state of a reader of it
-- that is just opened.
use libchdr.Prelude.{
  ℕ, ◌+◌, ◌^◌, ◌<◌, ◌≡◌, refl, subst, arith, List, length, replicate, length-replicate,
}
use libchdr.Prelude.{true, leb, if◌then◌else◌, Option, none, some}
use libchdr.Prelude.Slices.{slice, length-slice}
use libchdr.ReadAhead.{Reader}
use libchdr.ReadAhead.Window.{IsRange, Reads, ReadsAll, IsWindow}
use libchdr.ReadAhead.Sound.{some_if}

abbrev pub memory_read : List ℕ → ℕ → ℕ → Option (List ℕ)
memory_read file position total_bytes =
    if leb (position + total_bytes) (length file)
    then some (slice file position total_bytes)
    else none

pub memory_read-Reads : (file : List ℕ) → Reads file (memory_read file)
memory_read-Reads file position total_bytes bytes e =
    let (inside, same) = some_if _ _ bytes e in
    subst (IsRange file position total_bytes) same
      (refl, length-slice file position total_bytes (ground arith))

pub memory_read-ReadsAll : (file : List ℕ) → ReadsAll file (memory_read file)
memory_read-ReadsAll file position total_bytes inside =
    let fits : leb (position + total_bytes) (length file) ≡ true = ground arith in rw fits refl

abbrev pub opened : List ℕ → ℕ → Reader
opened file hunkbytes = record {
  file_cache = none;
  file_size = length file;
  hunkbytes = hunkbytes;
  compressed = replicate hunkbytes 0;
  ra_buf = none;
  ra_capacity = 0;
  ra_off = 0;
  ra_valid = 0;
  ra_hits = 0;
  ra_misses = 0;
}

pub opened-IsWindow :
    (file : List ℕ) (hunkbytes : ℕ) → length file < 2 ^ 63 → IsWindow file (opened file hunkbytes)
opened-IsWindow file hunkbytes small = record {
  file_length = refl;
  compressed_size = length-replicate hunkbytes 0;
  small_file = small;
  small_buffer = omega arith;
  copy = λ cache e. absurd (cc);
  filled = λ buf e. absurd (cc);
}
