-- ===== src/SelfCache/Coherent.antt =====
-- The cache never returns anything but a hunk's own data.
use libchdr.Prelude.{ℕ, zero, suc, ◌+◌, ◌%◌, ◌<◌, ◌≡◌, ◌≢◌, ◌∙◌, arith, List, [], ◌∷◌}
use libchdr.Prelude.{length, get_elem?, get_elem?-set_self, get_elem?-set_ne, length-set}
use libchdr.Prelude.{set, subst, false, ◌==◌, none, some}
use libchdr.Prelude.{Bool-cases, Option-cases, inl, inr}
use native.Mathlib.Nat.{mod-lt}
use libchdr.SelfCache.{SelfCache, selfcache_lookup, selfcache_store, find_slot, no_hunk}

find_slot-some :
    (hs : List ℕ) (hunknum i : ℕ) → find_slot hs hunknum ≡ some i → get_elem? hs i ≡ some hunknum
find_slot-some [] hunknum i e = cc
find_slot-some (h ∷ hs) hunknum zero e = ground (arith, Option-cases (find_slot hs hunknum))
find_slot-some (h ∷ hs) hunknum (suc i) e =
    ground (arith, find_slot-some hs hunknum i, Option-cases (find_slot hs hunknum))

find_slot-none :
    (hs : List ℕ) (hunknum i h : ℕ)
    → find_slot hs hunknum ≡ none
    → get_elem? hs i ≡ some h
    → h ≢ hunknum
find_slot-none [] hunknum i h e at same = cc
find_slot-none (g ∷ hs) hunknum zero h e at same = ground arith
find_slot-none (g ∷ hs) hunknum (suc i) h e at same =
    ground (arith, find_slot-none hs hunknum i h, Option-cases (find_slot hs hunknum))

-- After a hunk's number is written to a slot, the search finds a slot.
find_slot-set :
    (hs : List ℕ) (hunknum i : ℕ)
    → i < length hs
    → find_slot hs hunknum ≡ none
    → find_slot (set hs i hunknum) hunknum ≡ some i
find_slot-set [] hunknum i h e = absurd (omega arith)
find_slot-set (g ∷ hs) hunknum zero h e = ground arith
find_slot-set (g ∷ hs) hunknum (suc i) h e =
    ground (arith, find_slot-set hs hunknum i, Option-cases (find_slot hs hunknum))

module _ (Holds : ℕ → List ℕ → Type 0) where
  -- A block with the data of a hunk.
  abbrev pub HasData : SelfCache → ℕ → ℕ → Type 0
  HasData c i hunknum =
      (block : List ℕ) × (get_elem? c.data_blocks i ≡ some block) × Holds hunknum block

  -- The arrays have a slot for each entry, and a slot with a hunk's number holds its data.
  pub record IsCoherent (c : SelfCache) : Type 0 where
    pub hunk_size : length c.hunk ≡ c.entries
    pub data_size : length c.data_blocks ≡ c.entries
    pub turn : c.entries ≢ 0 → c.next < c.entries
    pub held : (i h : ℕ) → get_elem? c.hunk i ≡ some h → h ≢ no_hunk → HasData c i h

  -- The state after a hunk is put into the next slot.
  abbrev replaced : SelfCache → ℕ → List ℕ → SelfCache
  replaced c hunknum src = record c {
    next = (c.next + 1) % c.entries;
    data_blocks = set c.data_blocks c.next src;
    hunk = set c.hunk c.next hunknum;
  }

  replaced-HasData :
      (c : SelfCache) (hunknum i h : ℕ) (src : List ℕ)
      → IsCoherent c
      → Holds hunknum src
      → c.entries ≢ 0
      → get_elem? (set c.hunk c.next hunknum) i ≡ some h
      → h ≢ no_hunk
      → HasData (replaced c hunknum src) i h
  replaced-HasData c hunknum i h src v own some_slots at valid =
      let turn = v.turn some_slots in
      elim (Bool-cases (c.next == i)) [
        | inl here ↦
            let same : c.next ≡ i = ground arith in
            let self =
              get_elem?-set_self c.hunk c.next hunknum (omega (arith, turn, v.hunk_size)) in
            let self' =
              get_elem?-set_self c.data_blocks c.next src (omega (arith, turn, v.data_size)) in
            let number : hunknum ≡ h = ground (arith, self, same) in
            (src, ground (arith, self', same), subst (λ n. Holds n src) number own)
        | inr elsewhere ↦
            let old : get_elem? c.hunk i ≡ some h =
              ground (arith, get_elem?-set_ne c.hunk {i = c.next} {j = i} hunknum) in
            let (block, there, own') = v.held i h old valid in
            (block, ground (arith, get_elem?-set_ne c.data_blocks {i = c.next} {j = i} src), own')
      ]

  replaced-IsCoherent :
      (c : SelfCache) (hunknum : ℕ) (src : List ℕ)
      → IsCoherent c
      → Holds hunknum src
      → c.entries ≢ 0
      → IsCoherent (replaced c hunknum src)
  replaced-IsCoherent c hunknum src v own some_slots = record {
    hunk_size = length-set c.hunk c.next hunknum ∙ v.hunk_size;
    data_size = length-set c.data_blocks c.next src ∙ v.data_size;
    turn = λ more. mod-lt (c.next + 1) (ground arith);
    held = λ i h. replaced-HasData c hunknum i h src v own some_slots;
  }

  -- A store of a hunk's own data keeps the cache coherent.
  pub selfcache_store-IsCoherent :
      (c : SelfCache) (hunknum : ℕ) (src : List ℕ)
      → IsCoherent c
      → Holds hunknum src
      → IsCoherent (selfcache_store c hunknum src)
  unfolding selfcache_store
  selfcache_store-IsCoherent c hunknum src v own = elim (Bool-cases (c.entries == 0)) [
    | inl empty ↦ rw (empty, selfcache_store) v
    | inr busy ↦ elim (Option-cases (find_slot c.hunk hunknum)) [
      | inr (i, resident) ↦ rw (busy, resident, selfcache_store) v
      | inl missing ↦
          rw (busy, missing, selfcache_store)
            (replaced-IsCoherent c hunknum src v own (ground arith))
    ]
  ]

  -- What a lookup in a coherent cache returns is the hunk's data.
  pub selfcache_lookup-coherent :
      (c : SelfCache) (hunknum : ℕ) (bytes : List ℕ)
      → IsCoherent c
      → hunknum ≢ no_hunk
      → selfcache_lookup c hunknum ≡ some bytes
      → Holds hunknum bytes
  unfolding selfcache_lookup
  selfcache_lookup-coherent c hunknum bytes v valid e =
      elim (Option-cases (find_slot c.hunk hunknum)) [
        | inl missing ↦ absurd (ground arith)
        | inr (i, resident) ↦
            let (block, there, own) =
              v.held i hunknum (find_slot-some c.hunk hunknum i resident) valid in
            let same : block ≡ bytes = ground arith in subst (Holds hunknum) same own
      ]

  -- A lookup right after a store of a hunk's own data finds data of the hunk, whether it was there
  -- before or not, in a coherent cache with a slot at least. 0xffffffff is no hunk's number.
  pub selfcache_lookup-store :
      (c : SelfCache) (hunknum : ℕ) (src : List ℕ)
      → IsCoherent c
      → Holds hunknum src
      → c.entries ≢ 0
      → hunknum ≢ no_hunk
      → (bytes : List ℕ) × (selfcache_lookup (selfcache_store c hunknum src) hunknum ≡ some bytes)
        × Holds hunknum bytes
  unfolding selfcache_store selfcache_lookup
  selfcache_lookup-store c hunknum src v own some_slots valid =
      let busy : (c.entries == 0) ≡ false = ground (arith, some_slots) in
      elim (Option-cases (find_slot c.hunk hunknum)) [
        | inr (i, resident) ↦
            let (block, there, own') =
              v.held i hunknum (find_slot-some c.hunk hunknum i resident) valid in
            (
              block,
              rw (busy, resident, selfcache_store) (rw (resident, selfcache_lookup) there),
              own',
            )
        | inl missing ↦
            let turn = v.turn some_slots in
            let found =
              find_slot-set c.hunk hunknum c.next (omega (arith, turn, v.hunk_size)) missing in
            let there =
              get_elem?-set_self c.data_blocks c.next src (omega (arith, turn, v.data_size)) in
            (src, rw (busy, missing, selfcache_store) (rw (found, selfcache_lookup) there), own)
      ]
