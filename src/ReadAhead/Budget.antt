-- ===== src/ReadAhead/Budget.antt =====
-- The calls that set up the copy of the file and the window leave both right.
use libchdr.Prelude.{ℕ, ◌<◌, ◌^◌, ◌≡◌, refl, sym, subst, arith, List, length}
use libchdr.Prelude.{Bool, ltb, ◌==◌, ◌||◌, Option, none, some}
use libchdr.Prelude.{Bool-cases, Option-cases, inl, inr, ◌∙◌}
use libchdr.Prelude.Slices.{slice, take_all}
use libchdr.ReadAhead.{Reader, chd_precache, chd_set_cache_budget}
use libchdr.ReadAhead.Window.{Reads, IsFilled, IsWindow}
use libchdr.ReadAhead.Refill.{empty-IsFilled}

module _ (file : List ℕ) (r : Reader) (v : IsWindow file r) where
  copied-IsWindow :
      (bytes : List ℕ)
      → bytes ≡ slice file 0 r.file_size
      → IsWindow file (record r { file_cache = some bytes })
  copied-IsWindow bytes read = record {
    file_length = v.file_length;
    compressed_size = v.compressed_size;
    small_file = v.small_file;
    small_buffer = v.small_buffer;
    copy = λ cache e.
        let same : bytes ≡ cache = cc in
        sym same ∙ read ∙ rw⁻¹ (v.file_length) (take_all file (length file) refl);
    filled = v.filled;
  }

  -- `chd_precache` keeps a right window, with a right copy of the file if there is one, whether `malloc`
  -- and the read succeed or not. The callbacks return the bytes asked for when they succeed.
  pub chd_precache-IsWindow :
      (seek_and_read : ℕ → ℕ → Option (List ℕ)) (malloc_ok : Bool)
      → Reads file seek_and_read
      → IsWindow file (chd_precache seek_and_read malloc_ok r).1
  unfolding chd_precache
  chd_precache-IsWindow seek_and_read malloc_ok reads = elim (Option-cases r.file_cache) [
    | inr (cache, at) ↦ rw (at, chd_precache) v
    | inl uncached ↦ elim (Bool-cases malloc_ok) [
      | inr failed ↦ rw (uncached, failed, chd_precache) v
      | inl allocated ↦ elim (Option-cases (seek_and_read 0 r.file_size)) [
        | inl unread ↦ rw (uncached, allocated, unread, chd_precache) v
        | inr (bytes, read) ↦
            rw (uncached, allocated, read, chd_precache)
              (copied-IsWindow bytes (reads 0 r.file_size bytes read).0)
      ]
    ]
  ]

  released-IsWindow :
      IsWindow file (record r { ra_buf = none; ra_capacity = 0; ra_valid = 0; ra_off = 0 })
  released-IsWindow = record {
    file_length = v.file_length;
    compressed_size = v.compressed_size;
    small_file = v.small_file;
    small_buffer = omega arith;
    copy = v.copy;
    filled = λ buf e. cc;
  }

  fresh-IsWindow :
      (malloc : ℕ → Option (List ℕ)) (bytes : ℕ) (buf : List ℕ)
      → ((n : ℕ) (b : List ℕ) → malloc n ≡ some b → length b ≡ n)
      → bytes < 2 ^ 63
      → malloc bytes ≡ some buf
      → IsWindow file (record r {
        ra_buf = some buf;
        ra_capacity = bytes;
        ra_off = 0;
        ra_valid = 0;
        ra_hits = 0;
        ra_misses = 0;
      })
  fresh-IsWindow malloc bytes buf sizes small got = record {
    file_length = v.file_length;
    compressed_size = v.compressed_size;
    small_file = v.small_file;
    small_buffer = small;
    copy = v.copy;
    filled = λ b e.
        let same : buf ≡ b = cc in
        subst (λ x. IsFilled file x bytes 0 0) same
          (empty-IsFilled file buf bytes 0 (sizes bytes buf got) (omega arith));
  }

  -- `chd_set_cache_budget` leaves a right window in place of a right one, whether `malloc` succeeds or
  -- not, for a budget below 2 ^ 63. `malloc` returns as many bytes as it is asked for.
  pub chd_set_cache_budget-IsWindow :
      (malloc : ℕ → Option (List ℕ)) (bytes : ℕ)
      → ((n : ℕ) (buf : List ℕ) → malloc n ≡ some buf → length buf ≡ n)
      → bytes < 2 ^ 63
      → IsWindow file (chd_set_cache_budget malloc bytes r).1
  unfolding chd_set_cache_budget
  chd_set_cache_budget-IsWindow malloc bytes sizes small =
      let released = released-IsWindow in
      elim (Bool-cases ((bytes == 0) || ltb bytes r.hunkbytes)) [
        | inl off ↦ elim (Option-cases r.ra_buf) [
          | inl none_yet ↦ rw (off, none_yet, chd_set_cache_budget) v
          | inr (old, at) ↦ rw (off, at, chd_set_cache_budget) released
        ]
        | inr on ↦ elim (Option-cases (malloc bytes)) [
          | inl failed ↦ elim (Option-cases r.ra_buf) [
            | inl none_yet ↦ rw (on, failed, none_yet, chd_set_cache_budget) v
            | inr (old, at) ↦ rw (on, failed, at, chd_set_cache_budget) released
          ]
          | inr (buf, got) ↦ elim (Option-cases r.ra_buf) [
            | inl none_yet ↦
                rw (on, got, none_yet, chd_set_cache_budget)
                  (fresh-IsWindow malloc bytes buf sizes small got)
            | inr (old, at) ↦
                rw (on, got, at, chd_set_cache_budget)
                  (fresh-IsWindow malloc bytes buf sizes small got)
          ]
        ]
      ]
