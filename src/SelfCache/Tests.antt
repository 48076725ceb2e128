-- ===== src/SelfCache/Tests.antt =====
-- Runs of the cache of decoded hunks.
use libchdr.Prelude.{ℕ, ◌≡◌, refl, arith, List, [], ◌∷◌, replicate, length-replicate}
use libchdr.Prelude.{true, Option, some}
use libchdr.SelfCache.{
  SelfCache, selfcache_free, selfcache_ensure, selfcache_lookup, selfcache_store, no_hunk,
}
use libchdr.SelfCache.Coherent.{IsCoherent, selfcache_lookup-store}
use libchdr.SelfCache.Reach.{
  IsReachable, freed, ensured, stored, Allocates, selfcache_lookup-reachable, get_elem?-replicate,
}

-- A hunk is 20000 bytes with its number.
abbrev content : ℕ → List ℕ
content hunknum = hunknum ∷ []

abbrev malloc_data : ℕ → Option (List (List ℕ))
malloc_data n = some (replicate n [])

abbrev Own : ℕ → List ℕ → Type 0
Own hunknum bytes = bytes ≡ content hunknum

malloc_data-Allocates : Allocates Own malloc_data
malloc_data-Allocates n blocks e = ground (arith, length-replicate {A = List ℕ} n [])

-- Room for three hunks.
abbrev three : SelfCache
three = record {
  data_blocks = [] ∷ [] ∷ [] ∷ [];
  hunk = no_hunk ∷ no_hunk ∷ no_hunk ∷ [];
  entries = 3;
  next = 0;
}

abbrev start : SelfCache
start = record { data_blocks = []; hunk = []; entries = 0; next = 0 }

abbrev with_five : SelfCache
with_five = record {
  data_blocks = (5 ∷ []) ∷ [] ∷ [] ∷ [];
  hunk = 5 ∷ no_hunk ∷ no_hunk ∷ [];
  entries = 3;
  next = 1;
}

with_five-IsReachable : IsReachable Own malloc_data with_five
unfolding selfcache_free selfcache_ensure selfcache_store
with_five-IsReachable =
    stored {c = three} {hunknum = 5} {src = 5 ∷ []}
      (ensured {c = start} (λ n. true) 20000 (freed start)) refl

selfcache_lookup-reachable_example : 5 ∷ [] ≡ content 5
unfolding selfcache_lookup
selfcache_lookup-reachable_example =
    selfcache_lookup-reachable Own malloc_data with_five 5 (5 ∷ []) malloc_data-Allocates
      with_five-IsReachable (λ e. omega (arith, e)) refl

three-IsCoherent : IsCoherent Own three
three-IsCoherent = record {
  hunk_size = refl;
  data_size = refl;
  turn = λ e. omega arith;
  held = λ i h at valid. absurd (valid (get_elem?-replicate 3 no_hunk i h at));
}

selfcache_lookup-store_example :
    (bytes : List ℕ) × (selfcache_lookup (selfcache_store three 5 (content 5)) 5 ≡ some bytes)
    × (bytes ≡ content 5)
selfcache_lookup-store_example =
    selfcache_lookup-store Own three 5 (content 5) three-IsCoherent refl (λ e. omega (arith, e))
      (λ e. omega (arith, e))
