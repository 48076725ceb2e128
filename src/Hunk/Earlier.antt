-- ===== src/Hunk/Earlier.antt =====
-- The case that reads an earlier hunk of the same file, by way of the cache, does so too.
use libchdr.Prelude.{ℕ, ◌<◌, ◌≡◌, subst, arith}
use libchdr.Prelude.{List, [], ◌∷◌, length, u32, Bool, true, false, leb, ◌==◌, if◌then◌else◌}
use libchdr.Prelude.{Option, none, some, Bool-cases, Option-cases, inl, inr}
use libchdr.MapV5.{compression_self}
use libchdr.SelfCache.{SelfCache, selfcache_ensure, selfcache_lookup, selfcache_store}
use libchdr.SelfCache.Coherent.{IsCoherent, selfcache_store-IsCoherent, selfcache_lookup-coherent}
use libchdr.SelfCache.Reach.{selfcache_ensure-IsCoherent}
use native.Mathlib.Nat.{mod-eq_of_lt}
use libchdr.Hunk.State.{ChdFile, Environment, ReadHunk, Outcome, ok, error, undefined, out_of_fuel}
use libchdr.Hunk.Stored.{block_type, block_offs}
use libchdr.Hunk.References.{store_target, v5_self}
use libchdr.Hunk.Spec.{Source, IsHunk, delivered, refused, IsBlock, block_self}
use libchdr.Hunk.Invariant.{IsEnvironment, IsOpen, IsChain, file_of, Answers, source}
use libchdr.Hunk.FromReferences.{IsReaderBelow, some-HasSize}

module _ (env : Environment) (hunkbytes : ℕ) where
  found_unless :
      (b : Bool) (found : Option (List ℕ)) (bytes : List ℕ)
      → (if b then none else found) ≡ some bytes
      → found ≡ some bytes
  found_unless true found bytes e = absurd (cc)
  found_unless false found bytes e = e

  cache-IsOpen :
      (file : List ℕ) (ss : List Source) (chd : ChdFile) (c : SelfCache)
      → IsOpen env hunkbytes file ss chd
      → IsCoherent (IsHunk env (source file chd ∷ ss)) c
      → IsOpen env hunkbytes file ss (record chd { selfcache = c })
  cache-IsOpen file ss chd c v coherent = record {
    same_size = v.same_size;
    reader_size = v.reader_size;
    well_formed = v.well_formed;
    window = v.window;
    reads = v.reads;
    cache = coherent;
  }

  store_target-Answers :
      {s : Source} {ss : List Source} (target n : ℕ) (outcome : Outcome)
      → Answers env hunkbytes (s ∷ ss) target outcome
      → ((bytes : List ℕ) → IsHunk env (s ∷ ss) target bytes → IsHunk env (s ∷ ss) n bytes)
      → Answers env hunkbytes (s ∷ ss) n (store_target target outcome)
  store_target-Answers target n (ok bytes, chd ∷ parents) (delivered h, file_of {file} {ss} v c)
        lift =
      (
        delivered (lift bytes h),
        file_of
            (cache-IsOpen file ss chd (selfcache_store chd.selfcache target bytes) v (
              selfcache_store-IsCoherent (IsHunk env (source file chd ∷ ss)) chd.selfcache target
                bytes v.cache h))
            c,
      )
  store_target-Answers target n (ok bytes, []) (answer, c) lift = elim c [ ]
  store_target-Answers target n (error err, chds) (refused, c) lift = (refused, c)
  store_target-Answers target n (undefined, chds) (answer, c) lift = elim answer [ ]
  store_target-Answers target n (out_of_fuel, chds) (answer, c) lift = elim answer [ ]

  pub v5_self-Answers :
      {ss : List Source} {parents : List ChdFile} (file : List ℕ) (chd : ChdFile) (self : ReadHunk)
      (n : ℕ) (dest : List ℕ)
      → IsEnvironment env
      → IsOpen env hunkbytes file ss chd
      → IsBlock (source file chd) n
      → block_type chd.header n ≡ compression_self
      → length dest ≡ hunkbytes
      → IsReaderBelow env hunkbytes n (source file chd ∷ ss) self
      → IsChain env hunkbytes ss parents
      → Answers env hunkbytes (source file chd ∷ ss) n (v5_self env self chd parents n dest)
  unfolding v5_self
  v5_self-Answers {ss} {parents} file chd self n dest e v block type sized reads c =
      let offs = block_offs chd.header n in
      let target = u32 offs in
      let cache = chd.selfcache in
      let Holds = IsHunk env (source file chd ∷ ss) in
      let number : target ≡ offs =
        mod-eq_of_lt ((v.well_formed.blocks block.0 n block.1).number type) in
      elim (Bool-cases (leb n target)) [
        | inl late ↦ rw (late, v5_self) (refused, file_of v c)
        | inr before ↦
            let lower : target < n = ground arith in
            let lift : (bytes : List ℕ) → Holds target bytes → Holds n bytes = λ bytes h.
              block_self block type (omega (arith, number)) (subst (λ k. Holds k bytes) number h) in
            elim (Option-cases
              (if cache.entries == 0 then none else selfcache_lookup cache target)) [
                | inr (bytes, hit) ↦
                    rw (before, hit, v5_self)
                      (
                        delivered (
                            lift bytes (
                              selfcache_lookup-coherent Holds cache target bytes v.cache
                                (λ z. omega (arith, z, lower, block.1, v.well_formed.few))
                                (found_unless (cache.entries == 0) (selfcache_lookup cache target)
                                  bytes hit))),
                        file_of v c,
                      )
                | inl miss ↦
                    let cache' =
                      (selfcache_ensure env.malloc_data env.malloc_hunk chd.header.hunkbytes
                        cache).1 in
                    let coherent =
                      selfcache_ensure-IsCoherent Holds env.malloc_data env.malloc_hunk
                        chd.header.hunkbytes cache e.allocated_data v.cache in
                    rw (before, miss, v5_self)
                      (store_target-Answers target n _
                        (reads target (some dest) (record chd { selfcache = cache' } ∷ parents)
                          lower (omega arith) (some-HasSize env hunkbytes dest sized)
                          (file_of (cache-IsOpen file ss chd cache' v coherent) c))
                        lift)
              ]
      ]
