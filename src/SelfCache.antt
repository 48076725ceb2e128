-- ===== src/SelfCache.antt =====
-- The cache of decoded hunks for self-references, `selfcache_*` of src/libchdr_chd.c. The buffer of
-- `n * hunkbytes` bytes is the list of its `n` blocks, which the code only uses as a whole.
pub mod Coherent
pub mod Reach
mod Tests
use libchdr.Prelude.{ℕ, zero, suc, ◌+◌, ◌/◌, ◌%◌, List, [], ◌∷◌, get_elem?, set, replicate}
use libchdr.Prelude.{Bool, true, false, ◌==◌, not, if◌then◌else◌, Option, none, some}

-- `CHDR_SELF_CACHE_BYTES`, without LOWRAM_TARGET
abbrev pub self_cache_bytes : ℕ
self_cache_bytes = 65536

-- `(uint32_t)~0`, the number of an empty slot
abbrev pub no_hunk : ℕ
no_hunk = 0xffffffff

-- The fields `selfcache_data`, `selfcache_hunk`, `selfcache_entries` and `selfcache_next` of
-- `struct _chd_file`.
pub record SelfCache : Type 0 where
  pub data_blocks : List (List ℕ)
  pub hunk : List ℕ
  pub entries : ℕ
  pub next : ℕ

pub selfcache_free : SelfCache → SelfCache
selfcache_free c = record { data_blocks = []; hunk = []; entries = 0; next = 0 }

-- The first function is the `malloc` of the blocks, which returns unknown bytes or fails; the test
-- says whether the `malloc` of the numbers succeeds.
pub selfcache_ensure : (ℕ → Option (List (List ℕ))) → (ℕ → Bool) → ℕ → SelfCache → Bool × SelfCache
unfolding selfcache_free
selfcache_ensure malloc_data malloc_hunk hunkbytes c =
    if not (c.entries == 0)
    then (true, c)
    else if hunkbytes == 0
    then (false, c)
    else let share = self_cache_bytes / hunkbytes in
      let n = if share == 0 then 1 else share in
      elim (malloc_data n) [
        | none ↦ (false, selfcache_free c)
        | some blocks ↦
            if malloc_hunk n
            then (
              true,
              record { data_blocks = blocks; hunk = replicate n no_hunk; entries = n; next = 0 },
            )
            else (false, selfcache_free c)
      ]

-- The first slot with a hunk's number: the loops over `i` of the next two functions.
abbrev pub find_slot : List ℕ → ℕ → Option ℕ
find_slot [] hunknum = none
find_slot (h ∷ hs) hunknum = elim (h == hunknum) [
  | true ↦ some 0
  | false ↦ elim (find_slot hs hunknum) [ none ↦ none | some i ↦ some (suc i) ]
]

-- The bytes that are copied to `dest`, where the function returns 1.
pub selfcache_lookup : SelfCache → ℕ → Option (List ℕ)
selfcache_lookup c hunknum = elim (find_slot c.hunk hunknum) [
  | none ↦ none
  | some i ↦ get_elem? c.data_blocks i
]

pub selfcache_store : SelfCache → ℕ → List ℕ → SelfCache
selfcache_store c hunknum src = if c.entries == 0 then c else elim (find_slot c.hunk hunknum) [
  | some i ↦ c
  | none ↦ record c {
    next = (c.next + 1) % c.entries;
    data_blocks = set c.data_blocks c.next src;
    hunk = set c.hunk c.next hunknum;
  }
]
