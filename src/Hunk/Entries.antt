-- ===== src/Hunk/Entries.antt =====
-- The map entries of a file of each kind: `hunk_read_into_memory` of src/libchdr_chd.c for the versions
-- 1 to 4, for the version 5 without compression and with compression.
use libchdr.Prelude.{ℕ, ◌≤◌, ◌<◌, ◌≡◌, refl, sym, subst, ◌∙◌, arith}
use libchdr.Prelude.{List, [], ◌∷◌, length, u32, leb, ◌==◌}
use libchdr.Prelude.{some, Bool-cases, Option-cases, inl, inr}
use native.Mathlib.Nat.{mod-eq_of_lt}
use libchdr.LegacyMap.{MapEntry, map_entry_type_compressed, map_entry_type_uncompressed}
use libchdr.MapV5.{compression_type_3, compression_none, compression_self, compression_parent}
use libchdr.Hunk.State.{
  ChdFile, Environment, ReadHunk, first_compression, entry_type, chd_compressed,
  map_entry_type_mini, map_entry_type_self_hunk, map_entry_type_parent_hunk,
}
use libchdr.Hunk.Stored.{block_type, raw_offs}
use libchdr.Hunk.Read.{read_legacy, raw_missing, read_raw, read_v5}
use libchdr.Hunk.Spec.{
  Source, IsHunk, delivered, refused, IsBlock, IsLegacyEntry, IsRaw, legacy_unknown, legacy_self,
  legacy_parent, raw_stored, raw_parent, raw_zero,
}
use libchdr.Hunk.Invariant.{IsEnvironment, IsOpen, IsChain, no_file, file_of, Answers, source}
use libchdr.Hunk.FromFile.{
  legacy_compressed-Answers, legacy_uncompressed-Answers, legacy_mini-IsAnswer,
  v5_compressed-Answers, v5_uncompressed-Answers,
}
use libchdr.Hunk.FromReferences.{
  IsReader, IsReaderBelow, some-HasSize, no-IsHunk, IsAnswer-map, with_parent-Answers,
  from_parent-Answers, v5_parent-Answers,
}
use libchdr.Hunk.Earlier.{v5_self-Answers}
use libchdr.Hunk.InMap.{unknown_type, rawmap-inside, get_elem?-some}

module _ (env : Environment) (e : IsEnvironment env) (hunkbytes : ℕ) where
  module _ (file : List ℕ) (chd : ChdFile) (self parent : ReadHunk) (n : ℕ) (dest : List ℕ)
      (sized : length dest ≡ hunkbytes) (inside : n < chd.header.totalhunks) where
    legacy_parent-lift :
        {ss : List Source} (entry : MapEntry)
        → IsLegacyEntry (source file chd) n entry map_entry_type_parent_hunk
        → u32 entry.offset ≡ entry.offset
        → (bytes : List ℕ) → IsHunk env ss (u32 entry.offset) bytes
        → IsHunk env (source file chd ∷ ss) n bytes
    legacy_parent-lift {ss = []} entry at number bytes h =
        absurd (let no = no-IsHunk env hunkbytes h in cc)
    legacy_parent-lift {ss = p ∷ ss} entry at number bytes h =
        legacy_parent at (subst (λ k. IsHunk env (p ∷ ss) k bytes) number h)

    -- The answer for the hunk that an entry refers to.
    earlier-Answers :
        {ss : List Source} {parents : List ChdFile} (entry : MapEntry)
        → IsOpen env hunkbytes file ss chd
        → IsReaderBelow env hunkbytes n (source file chd ∷ ss) self
        → IsChain env hunkbytes ss parents
        → IsLegacyEntry (source file chd) n entry map_entry_type_self_hunk
        → entry.offset < n
        → Answers env hunkbytes
            (source file chd ∷ ss)
            n
            (self (u32 entry.offset) (some dest) (chd ∷ parents))
    earlier-Answers {ss} entry v selfs c at before =
        let number : u32 entry.offset ≡ entry.offset =
          mod-eq_of_lt (omega (arith, before, inside, v.well_formed.few)) in
        let (answer, c') =
          selfs (u32 entry.offset) (some dest) _ (omega (arith, number, before)) (omega arith)
            (some-HasSize env hunkbytes dest sized) (file_of v c) in
        (
          IsAnswer-map env hunkbytes
              (λ bytes h.
                legacy_self at before
                  (subst (λ k. IsHunk env (source file chd ∷ ss) k bytes) number h))
              answer,
          c',
        )

    pub read_legacy-Answers :
        {ss : List Source} {parents : List ChdFile}
        → IsOpen env hunkbytes file ss chd
        → IsReaderBelow env hunkbytes n (source file chd ∷ ss) self
        → IsReader env hunkbytes ss parent
        → IsChain env hunkbytes ss parents
        → chd.header.version < 5
        → Answers env hunkbytes
            (source file chd ∷ ss)
            n
            (read_legacy env self parent chd parents n dest)
    unfolding read_legacy
    read_legacy-Answers {ss} {parents} v selfs parents_read c old =
        let (entry, at) =
          get_elem?-some chd.header.map n (omega (arith, v.well_formed.map_size old, inside)) in
        let f = v.well_formed.entries old n entry at in
        let type = entry_type entry in
        let sized' : length dest ≡ chd.header.hunkbytes = sized ∙ sym v.same_size in
        elim (Bool-cases (type == map_entry_type_compressed)) [
          | inl one ↦
              let (answer, v') =
                legacy_compressed-Answers env hunkbytes file ss chd v n entry dest sized' e
                  (old, inside, at, ground arith) f in
              rw (at, one, read_legacy) (answer, file_of v' c)
          | inr not_one ↦ elim (Bool-cases (type == map_entry_type_uncompressed)) [
            | inl two ↦
                let (answer, v') =
                  legacy_uncompressed-Answers env hunkbytes file ss chd v n entry dest sized'
                    (old, inside, at, ground arith) f in
                rw (at, not_one, two, read_legacy) (answer, file_of v' c)
            | inr not_two ↦ elim (Bool-cases (type == map_entry_type_mini)) [
              | inl three ↦
                  rw (at, not_one, not_two, three, read_legacy)
                    (
                      legacy_mini-IsAnswer env hunkbytes file ss chd v n entry dest sized'
                          (old, inside, at, ground arith),
                      file_of v c,
                    )
              | inr not_three ↦ elim (Bool-cases (type == map_entry_type_self_hunk)) [
                | inl four ↦ elim (Bool-cases (leb n entry.offset)) [
                  | inl late ↦
                      rw (at, not_one, not_two, not_three, four, late, read_legacy)
                        (refused, file_of v c)
                  | inr before ↦
                      let entry4 : IsLegacyEntry (source file chd) n entry
                          map_entry_type_self_hunk =
                        (old, inside, at, ground arith) in
                      rw (at, not_one, not_two, not_three, four, before, read_legacy)
                        (earlier-Answers entry v selfs c entry4 (ground arith))
                ]
                | inr not_four ↦ elim (Bool-cases (type == map_entry_type_parent_hunk)) [
                  | inl five ↦
                      let entry5 : IsLegacyEntry (source file chd) n entry
                          map_entry_type_parent_hunk =
                        (old, inside, at, ground arith) in
                      rw (at, not_one, not_two, not_three, not_four, five, read_legacy)
                        (from_parent-Answers env hunkbytes file chd parent (u32 entry.offset) n
                          (some dest) v parents_read c (some-HasSize env hunkbytes dest sized)
                          (legacy_parent-lift entry entry5 (mod-eq_of_lt (f.number entry5.3))))
                  | inr not_five ↦
                      rw (at, not_one, not_two, not_three, not_four, not_five, read_legacy)
                        (
                          delivered (
                              legacy_unknown (old, inside, at, refl)
                                (unknown_type type not_one not_two not_three not_four not_five)
                                sized'),
                          file_of v c,
                        )
                ]
              ]
            ]
          ]
        ]

    raw_missing-Answers :
        {ss : List Source} {parents : List ChdFile}
        → IsOpen env hunkbytes file ss chd
        → IsReader env hunkbytes ss parent
        → IsChain env hunkbytes ss parents
        → IsRaw (source file chd) n
        → raw_offs chd.header n ≡ 0
        → Answers env hunkbytes (source file chd ∷ ss) n (raw_missing parent chd parents n dest)
    unfolding raw_missing
    raw_missing-Answers v reads no_file raw zero_offs =
        (delivered (raw_zero raw zero_offs), file_of v no_file)
    raw_missing-Answers v reads (file_of v' c) raw zero_offs =
        with_parent-Answers env hunkbytes file chd parent n n (some dest) v reads (omega arith)
          (file_of v' c) (some-HasSize env hunkbytes dest sized)
          (λ bytes h. raw_parent raw zero_offs h)

    read_raw-Answers :
        {ss : List Source} {parents : List ChdFile}
        → IsOpen env hunkbytes file ss chd
        → IsReader env hunkbytes ss parent
        → IsChain env hunkbytes ss parents
        → IsRaw (source file chd) n
        → Answers env hunkbytes (source file chd ∷ ss) n (read_raw parent chd parents n dest)
    unfolding read_raw raw_missing
    read_raw-Answers v reads c raw =
        let offs = raw_offs chd.header n in
        elim (Bool-cases (offs == 0)) [
          | inl missing ↦ rw (missing, read_raw) (raw_missing-Answers v reads c raw (ground arith))
          | inr stored ↦ elim (Option-cases (chd.seek_and_read offs chd.header.hunkbytes)) [
            | inl failed ↦ rw (stored, failed, read_raw) (refused, file_of v c)
            | inr (bytes, got) ↦
                rw (stored, got, read_raw)
                  (
                    delivered (
                        raw_stored raw (λ z. ground arith)
                          (v.reads offs chd.header.hunkbytes bytes got)),
                    file_of v c,
                  )
          ]
        ]

    pub read_v5-Answers :
        {ss : List Source} {parents : List ChdFile}
        → IsOpen env hunkbytes file ss chd
        → IsReaderBelow env hunkbytes n (source file chd ∷ ss) self
        → IsReader env hunkbytes ss parent
        → IsChain env hunkbytes ss parents
        → 5 ≤ chd.header.version
        → Answers env hunkbytes
            (source file chd ∷ ss)
            n
            (read_v5 env self parent chd parents n dest)
    unfolding read_v5 chd_compressed
    read_v5-Answers {ss} {parents} v selfs reads c new =
        let type = block_type chd.header n in
        let sized' : length dest ≡ chd.header.hunkbytes = sized ∙ sym v.same_size in
        let here = rawmap-inside chd.header n v.well_formed new inside in
        elim (Bool-cases (first_compression chd.header == 0)) [
          | inl raw ↦
              rw (here, raw, chd_compressed, read_v5)
                (read_raw-Answers v reads c (new, inside, ground arith))
          | inr packed ↦
              let block : IsBlock (source file chd) n = (new, inside, λ z. ground arith) in
              elim (Bool-cases (leb type compression_type_3)) [
                | inl codec ↦
                    let (answer, v') =
                      v5_compressed-Answers env hunkbytes file ss chd v n e block (ground arith) in
                    rw (here, packed, codec, chd_compressed, read_v5) (answer, file_of v' c)
                | inr not_codec ↦ elim (Bool-cases (type == compression_none)) [
                  | inl stored ↦
                      let (answer, v') =
                        v5_uncompressed-Answers env hunkbytes file ss chd v n dest sized' block
                          (ground arith) in
                      rw (here, packed, not_codec, stored, chd_compressed, read_v5)
                        (answer, file_of v' c)
                  | inr not_stored ↦ elim (Bool-cases (type == compression_self)) [
                    | inl earlier ↦
                        rw (here, packed, not_codec, not_stored, earlier, chd_compressed, read_v5)
                          (v5_self-Answers env hunkbytes file chd self n dest e v block
                            (ground arith) sized selfs c)
                    | inr not_earlier ↦ elim (Bool-cases (type == compression_parent)) [
                      | inl above ↦
                          rw
                            (
                              here, packed, not_codec, not_stored, not_earlier, above,
                              chd_compressed, read_v5,
                            )
                            (v5_parent-Answers env hunkbytes file chd parent n dest e v block
                              (ground arith) sized reads c)
                      | inr unknown ↦
                          rw
                            (
                              here, packed, not_codec, not_stored, not_earlier, unknown,
                              chd_compressed, read_v5,
                            )
                            (refused, file_of v c)
                    ]
                  ]
                ]
              ]
        ]
