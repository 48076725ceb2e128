-- ===== src/Metadata/Find.antt =====
-- The search for a metadata entry against the list of entries that the links in the file make.
use libchdr.Prelude.{ℕ, zero, suc, ◌+◌, ◌-◌, ◌<◌, ◌≡◌, refl, ap, subst, ◌∙◌, arith, List, [], ◌∷◌}
use libchdr.Prelude.{length, get_elem?, true, false, ◌==◌, ◌&&◌, if◌then◌else◌, Option, none, some}
use libchdr.Prelude.{Bool-cases, ◌⊎◌, inl, inr, ◌≢◌}
use libchdr.Errors.{ChdError, no_error, invalid_data, metadata_not_found}
use libchdr.Metadata.{
  MetadataEntry, extract_entry, matches, find_loop, metadata_find_entry, metadata_header_size,
  max_metadata_entries,
}

-- The entries with a tag, in their order; the tag 0 stands for all.
abbrev pub matching : ℕ → List MetadataEntry → List MetadataEntry
matching metatag [] = []
matching metatag (e ∷ es) = elim (matches metatag e) [
  | true ↦ e ∷ matching metatag es
  | false ↦ matching metatag es
]

module _ (seek_and_read : ℕ → ℕ → Option (List ℕ)) where
  -- `IsChain prev offset es stop`: the links lead from `offset` over the entries `es` to `stop`.
  pub data IsChain : ℕ → ℕ → List MetadataEntry → ℕ → Type 0 where
    at_end : {prev offset : ℕ} → IsChain prev offset [] offset
    link :
        {prev offset stop : ℕ} (raw : List ℕ) {es : List MetadataEntry}
        → offset ≢ 0
        → seek_and_read offset metadata_header_size ≡ some raw
        → IsChain offset (extract_entry offset prev raw).next es stop
        → IsChain prev offset (extract_entry offset prev raw ∷ es) stop

  -- The end of the list: the offset 0, or an offset where no header can be read.
  abbrev pub IsEnd : ℕ → Type 0
  IsEnd offset = (offset ≡ 0) ⊎ (seek_and_read offset metadata_header_size ≡ none)

  abbrev last_offset : ℕ → List MetadataEntry → ℕ
  last_offset prev [] = prev
  last_offset prev (e ∷ es) = last_offset e.offset es

  -- What a search does after the entries `es`.
  abbrev pub outcome :
      ChdError × Option MetadataEntry → Option MetadataEntry → ChdError × Option MetadataEntry
  outcome otherwise none = otherwise
  outcome otherwise (some e) = (no_error, some e)

  -- One round at an entry that can be read: its match is counted, or the search goes on.
  find_loop-round :
      (left metatag metaindex prev offset : ℕ) (raw : List ℕ)
      → offset ≢ 0
      → seek_and_read offset metadata_header_size ≡ some raw
      → find_loop seek_and_read (suc left) metatag metaindex offset prev ≡ (
          let e = extract_entry offset prev raw in
          let index = if matches metatag e then metaindex - 1 else metaindex in
          if matches metatag e && (metaindex == 0)
          then (no_error, some e)
          else find_loop seek_and_read left metatag index e.next offset)
  unfolding find_loop
  find_loop-round left metatag zero prev offset raw nonzero readable =
      let going : (offset == 0) ≡ false = ground (arith, nonzero) in
      rw (going, readable, find_loop)
        (elim (Bool-cases (matches metatag (extract_entry offset prev raw))) [
          | inl hit ↦ rw (hit, matching) refl
          | inr miss ↦ rw (miss, find_loop) refl
        ])
  find_loop-round left metatag (suc metaindex) prev offset raw nonzero readable =
      let going : (offset == 0) ≡ false = ground (arith, nonzero) in
      let less : suc metaindex - 1 ≡ metaindex = omega arith in
      let more : (suc metaindex == 0) ≡ false = ground arith in
      rw (going, readable, find_loop)
        (elim (Bool-cases (matches metatag (extract_entry offset prev raw))) [
          | inl hit ↦ rw (hit, less, more, find_loop) refl
          | inr miss ↦ rw (miss, find_loop) refl
        ])

  find_loop-walk :
      (left metatag metaindex : ℕ) {prev offset stop : ℕ} {es : List MetadataEntry}
      → IsChain prev offset es stop
      → find_loop seek_and_read (length es + left) metatag metaindex offset prev
        ≡ outcome
            (find_loop seek_and_read left metatag
              (metaindex - length (matching metatag es))
              stop
              (last_offset prev es))
            (get_elem? (matching metatag es) metaindex)
  unfolding extract_entry
  find_loop-walk left metatag metaindex {prev} {offset} at_end =
      let none_left : 0 + left ≡ left = omega arith in
      let none_seen : metaindex - 0 ≡ metaindex = omega arith in rw (none_left, none_seen) refl
  find_loop-walk left metatag zero {prev} {offset} {stop} (link raw {es} nonzero readable rest) =
      let one_more : suc (length es) + left ≡ suc (length es + left) = omega arith in
      rw (one_more, find_loop-round (length es + left) metatag 0 prev offset raw nonzero readable)
        (elim (Bool-cases (matches metatag (extract_entry offset prev raw))) [
          | inl hit ↦ rw (hit, matching) refl
          | inr miss ↦ rw (miss, matching) (find_loop-walk left metatag 0 rest)
        ])
  find_loop-walk left metatag (suc metaindex) {prev} {offset} {stop}
        (link raw {es} nonzero readable rest) =
      let one_more : suc (length es) + left ≡ suc (length es + left) = omega arith in
      let less : suc metaindex - 1 ≡ metaindex = omega arith in
      let more : (suc metaindex == 0) ≡ false = ground arith in
      let fewer : suc metaindex - suc (length (matching metatag es))
          ≡ metaindex - length (matching metatag es) =
        omega arith in
      rw
        (
          one_more,
          find_loop-round (length es + left) metatag (suc metaindex) prev offset raw nonzero
              readable,
        )
        (elim (Bool-cases (matches metatag (extract_entry offset prev raw))) [
          | inl hit ↦
              rw (hit, less, more, fewer, matching) (find_loop-walk left metatag metaindex rest)
          | inr miss ↦ rw (miss, matching) (find_loop-walk left metatag (suc metaindex) rest)
        ])

  find_loop-end :
      (left metatag metaindex prev stop : ℕ)
      → IsEnd stop
      → find_loop seek_and_read (suc left) metatag metaindex stop prev ≡ (metadata_not_found, none)
  unfolding find_loop
  find_loop-end left metatag metaindex prev stop (inl e) = rw e refl
  find_loop-end left metatag metaindex prev stop (inr unreadable) = elim (Bool-cases (stop == 0)) [
    | inl zero_stop ↦ rw (zero_stop, find_loop) refl
    | inr going ↦ rw (going, unreadable, find_loop) refl
  ]

  -- Where the links from the first entry lead over fewer than 65536 entries to the end of the list,
  -- the search returns the entry with the given index among those with the tag, and reports that
  -- there is none if there are not as many.
  pub metadata_find_entry-chain :
      (metaoffset metatag metaindex stop : ℕ) (es : List MetadataEntry)
      → IsChain 0 metaoffset es stop
      → IsEnd stop
      → length es < max_metadata_entries
      → metadata_find_entry seek_and_read metaoffset metatag metaindex
        ≡ outcome (metadata_not_found, none) (get_elem? (matching metatag es) metaindex)
  unfolding metadata_find_entry
  metadata_find_entry-chain metaoffset metatag metaindex stop es chain ends few =
      let left = max_metadata_entries - suc (length es) in
      let all : length es + suc left ≡ max_metadata_entries = omega arith in
      subst
        (λ n.
          find_loop seek_and_read n metatag metaindex metaoffset 0
          ≡ outcome (metadata_not_found, none) (get_elem? (matching metatag es) metaindex))
        all
        (find_loop-walk (suc left) metatag metaindex chain
          ∙ ap (λ r. outcome r (get_elem? (matching metatag es) metaindex))
              (find_loop-end left metatag (metaindex - length (matching metatag es))
                (last_offset 0 es) stop ends))

  -- Where the links lead over 65536 entries and on, as those of a cycle do, the search ends too: with
  -- the entry asked for if it is among the 65536, with an error otherwise.
  pub metadata_find_entry-cycle :
      (metaoffset metatag metaindex stop : ℕ) (es : List MetadataEntry)
      → IsChain 0 metaoffset es stop
      → stop ≢ 0
      → length es ≡ max_metadata_entries
      → metadata_find_entry seek_and_read metaoffset metatag metaindex
        ≡ outcome (invalid_data, none) (get_elem? (matching metatag es) metaindex)
  unfolding metadata_find_entry find_loop
  metadata_find_entry-cycle metaoffset metatag metaindex stop es chain on many =
      let going : (stop == 0) ≡ false = ground (arith, on) in
      let all : length es + 0 ≡ max_metadata_entries = omega (arith, many) in
      subst
        (λ n.
          find_loop seek_and_read n metatag metaindex metaoffset 0
          ≡ outcome (invalid_data, none) (get_elem? (matching metatag es) metaindex))
        all (find_loop-walk 0 metatag metaindex chain ∙ rw going refl)
