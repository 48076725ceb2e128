-- ===== src/SelfCache/Reach.antt =====
-- The cache over a whole run: any sequence of its operations, in which every store is of a hunk's own
-- data.
use libchdr.Prelude.{ℕ, zero, suc, ◌/◌, ◌≡◌, ◌≢◌, refl, arith, List, length, get_elem?}
use libchdr.Prelude.{replicate, length-replicate, Bool, ◌==◌, Option, some}
use libchdr.Prelude.{if◌then◌else◌, Bool-cases, Option-cases, inl, inr}
use libchdr.SelfCache.{
  SelfCache, selfcache_ensure, selfcache_lookup, selfcache_store, no_hunk, selfcache_free,
  self_cache_bytes,
}
use libchdr.SelfCache.Coherent.{IsCoherent, selfcache_store-IsCoherent, selfcache_lookup-coherent}

pub get_elem?-replicate : (n a i h : ℕ) → get_elem? (replicate n a) i ≡ some h → h ≡ a
get_elem?-replicate zero a i h e = cc
get_elem?-replicate (suc n) a zero h e = cc
get_elem?-replicate (suc n) a (suc i) h e = get_elem?-replicate n a i h e

module _ (Holds : ℕ → List ℕ → Type 0) (malloc_data : ℕ → Option (List (List ℕ))) where
  selfcache_free-IsCoherent : (c : SelfCache) → IsCoherent Holds (selfcache_free c)
  unfolding selfcache_free
  selfcache_free-IsCoherent c = record {
    hunk_size = refl;
    data_size = refl;
    turn = λ h. absurd (h refl);
    held = λ i h e. cc;
  }

  fresh-IsCoherent :
      (n : ℕ) (blocks : List (List ℕ))
      → length blocks ≡ n
      → IsCoherent Holds
          (record { data_blocks = blocks; hunk = replicate n no_hunk; entries = n; next = 0 })
  fresh-IsCoherent n blocks size = record {
    hunk_size = length-replicate n no_hunk;
    data_size = size;
    turn = λ h. ground arith;
    held = λ i h at valid. absurd (valid (get_elem?-replicate n no_hunk i h at));
  }

  -- `malloc` returns as many blocks as it is asked for, when it succeeds.
  abbrev pub Allocates : Type 0
  Allocates = (n : ℕ) (blocks : List (List ℕ)) → malloc_data n ≡ some blocks → length blocks ≡ n

  pub selfcache_ensure-IsCoherent :
      (malloc_hunk : ℕ → Bool) (hunkbytes : ℕ) (c : SelfCache)
      → Allocates
      → IsCoherent Holds c
      → IsCoherent Holds (selfcache_ensure malloc_data malloc_hunk hunkbytes c).1
  unfolding selfcache_ensure
  selfcache_ensure-IsCoherent malloc_hunk hunkbytes c sizes v = elim (Bool-cases (c.entries == 0)) [
    | inr busy ↦ rw (busy, selfcache_ensure) v
    | inl empty ↦ elim (Bool-cases (hunkbytes == 0)) [
      | inl no_bytes ↦ rw (empty, no_bytes, selfcache_ensure) v
      | inr some_bytes ↦
          let share = self_cache_bytes / hunkbytes in
          let n = if share == 0 then 1 else share in
          elim (Option-cases (malloc_data n)) [
            | inl failed ↦
                rw (empty, some_bytes, failed, selfcache_ensure) (selfcache_free-IsCoherent c)
            | inr (blocks, got) ↦ elim (Bool-cases (malloc_hunk n)) [
              | inl ok ↦
                  rw (empty, some_bytes, got, ok, selfcache_ensure)
                    (fresh-IsCoherent n blocks (sizes n blocks got))
              | inr failed ↦
                  rw (empty, some_bytes, got, failed, selfcache_ensure)
                    (selfcache_free-IsCoherent c)
            ]
          ]
    ]
  ]

  -- The states of the cache: empty at first, then after any calls.
  pub data IsReachable : SelfCache → Type 0 where
    freed : (c : SelfCache) → IsReachable (selfcache_free c)
    ensured :
        {c : SelfCache} (malloc_hunk : ℕ → Bool) (hunkbytes : ℕ)
        → IsReachable c
        → IsReachable (selfcache_ensure malloc_data malloc_hunk hunkbytes c).1
    stored :
        {c : SelfCache} {hunknum : ℕ} {src : List ℕ}
        → IsReachable c
        → Holds hunknum src
        → IsReachable (selfcache_store c hunknum src)

  reachable-IsCoherent : {c : SelfCache} → Allocates → IsReachable c → IsCoherent Holds c
  reachable-IsCoherent sizes (freed c) = selfcache_free-IsCoherent c
  reachable-IsCoherent sizes (ensured {c} malloc_hunk hunkbytes r) =
      selfcache_ensure-IsCoherent malloc_hunk hunkbytes c sizes (reachable-IsCoherent sizes r)
  reachable-IsCoherent sizes (stored {c} {hunknum} {src} r own) =
      selfcache_store-IsCoherent Holds c hunknum src (reachable-IsCoherent sizes r) own

  -- After any sequence of calls in which each store is of a hunk's own data, a lookup that finds a
  -- hunk returns this hunk's data. The number 0xffffffff, which marks the empty slots, is no hunk's.
  pub selfcache_lookup-reachable :
      (c : SelfCache) (hunknum : ℕ) (bytes : List ℕ)
      → Allocates
      → IsReachable c
      → hunknum ≢ no_hunk
      → selfcache_lookup c hunknum ≡ some bytes
      → Holds hunknum bytes
  selfcache_lookup-reachable c hunknum bytes sizes r valid e =
      selfcache_lookup-coherent Holds c hunknum bytes (reachable-IsCoherent sizes r) valid e
