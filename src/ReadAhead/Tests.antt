-- ===== src/ReadAhead/Tests.antt =====
-- Runs of reads of stored bytes: a file of ten bytes in memory and a window of six bytes.
use libchdr.Prelude.{ℕ, ◌≡◌, refl, arith, List, [], ◌∷◌, replicate}
use libchdr.Prelude.{length-replicate, Option, some, true}
use libchdr.Prelude.Slices.{slice}
use libchdr.ReadAhead.{
  Reader, hunk_read_compressed, hunk_read_uncompressed, chd_set_cache_budget, chd_precache,
}
use libchdr.ReadAhead.Window.{IsWindow}
use libchdr.ReadAhead.Sound.{Answers}
use libchdr.ReadAhead.Serve.{
  hunk_read_compressed-Answers, hunk_read_uncompressed-Answers, hunk_read_compressed-some,
}
use libchdr.ReadAhead.Budget.{chd_precache-IsWindow, chd_set_cache_budget-IsWindow}
use libchdr.ReadAhead.Memory.{
  memory_read, memory_read-Reads, memory_read-ReadsAll, opened, opened-IsWindow,
}

abbrev file : List ℕ
file = 10 ∷ 11 ∷ 12 ∷ 13 ∷ 14 ∷ 15 ∷ 16 ∷ 17 ∷ 18 ∷ 19 ∷ []

abbrev malloc : ℕ → Option (List ℕ)
malloc n = some (replicate n 0)

-- An empty window.
abbrev empty : Reader
empty = (chd_set_cache_budget malloc 6 (opened file 4)).1

empty-IsWindow : IsWindow file empty
empty-IsWindow =
    chd_set_cache_budget-IsWindow file (opened file 4) (opened-IsWindow file 4 (omega arith)) malloc
      6 (λ n buf e. ground (arith, length-replicate {A = ℕ} n 0)) (omega arith)

-- After a read of two bytes at 1: the window holds the bytes 1 to 6.
abbrev filled : Reader
filled = (hunk_read_compressed (memory_read file) empty 1 2).1

filled-IsWindow : IsWindow file filled
filled-IsWindow =
    (hunk_read_compressed-Answers file (memory_read file) (memory_read-Reads file) empty 1 2
      empty-IsWindow (omega arith)).0

-- A read that the window holds in part.
hunk_read_compressed-Answers_example :
    Answers file 5 4 (hunk_read_compressed (memory_read file) filled 5 4)
hunk_read_compressed-Answers_example =
    hunk_read_compressed-Answers file (memory_read file) (memory_read-Reads file) filled 5 4
      filled-IsWindow (omega arith)

hunk_read_uncompressed-Answers_example :
    Answers file 2 4 (hunk_read_uncompressed (memory_read file) filled 2 4)
hunk_read_uncompressed-Answers_example =
    hunk_read_uncompressed-Answers file (memory_read file) (memory_read-Reads file) filled 2 4
      filled-IsWindow (omega arith)

filled_hunkbytes : filled.hunkbytes ≡ 4
unfolding hunk_read_compressed chd_set_cache_budget
filled_hunkbytes = refl

hunk_read_compressed-some_example :
    (hunk_read_compressed (memory_read file) filled 5 4).0 ≡ some (slice file 5 4)
hunk_read_compressed-some_example =
    hunk_read_compressed-some file (memory_read file) (memory_read-Reads file) filled 5 4
      (memory_read-ReadsAll file) filled-IsWindow (omega arith) (omega (arith, filled_hunkbytes))

chd_precache-IsWindow_example : IsWindow file (chd_precache (memory_read file) true filled).1
chd_precache-IsWindow_example =
    chd_precache-IsWindow file filled filled-IsWindow (memory_read file) true
      (memory_read-Reads file)

chd_set_cache_budget-IsWindow_example : IsWindow file (chd_set_cache_budget malloc 8 filled).1
chd_set_cache_budget-IsWindow_example =
    chd_set_cache_budget-IsWindow file filled filled-IsWindow malloc 8
      (λ n buf e. ground (arith, length-replicate {A = ℕ} n 0)) (omega arith)

-- A hunk of 8 bytes, 4 bytes before the end of the address space.
abbrev window : Reader
window = record (opened file 8) { ra_buf = some file; ra_capacity = 10; ra_valid = 10 }
