-- ===== src/Hunk/FromFile.antt =====
-- The cases that read the file itself return the hunk or an error, and keep the state right.
use libchdr.Prelude.{ℕ, ◌≤◌, ◌≡◌, sym, subst, ◌∙◌, arith}
use libchdr.Prelude.{List, ◌∷◌, length, get_or, bit_and, ltb, ◌==◌, ◌&&◌, not}
use libchdr.Prelude.{Bool-cases, Option-cases, Sum-cases, inl, inr}
use libchdr.Prelude.Slices.{take_all, overwrite_all}
use libchdr.Crc.{chd_crc16}
use libchdr.LegacyMap.{
  MapEntry, map_entry_flag_no_crc, map_entry_type_compressed, map_entry_type_uncompressed,
}
use libchdr.MapV5.{compression_type_3, compression_none}
use libchdr.ReadAhead.{Reader, hunk_read_compressed, hunk_read_uncompressed}
use libchdr.ReadAhead.Window.{IsRange, IsWindow}
use libchdr.ReadAhead.Compressed.{hunk_read_compressed-hunkbytes, hunk_read_uncompressed-hunkbytes}
use libchdr.ReadAhead.Serve.{hunk_read_compressed-Answers, hunk_read_uncompressed-Answers}
use libchdr.Hunk.State.{ChdFile, Environment, HunkResult, first_compression, map_entry_type_mini}
use libchdr.Hunk.Stored.{
  crc32_checked, crc16_checked, legacy_compressed, legacy_uncompressed, legacy_mini, v5_compressed,
  v5_uncompressed, block_type, block_len, block_offs, block_crc, is_codec,
}
use libchdr.Hunk.Spec.{
  Source, IsHunk, IsAnswer, delivered, refused, HasCrc32, IsLegacyEntry, IsBlock,
}
use libchdr.Hunk.Spec as Spec
use libchdr.Hunk.Mini.{mini_fill-IsPattern}
use libchdr.Hunk.Invariant.{IsEnvironment, IsOpen, IsEntry, source}

module _ (env : Environment) where
  crc32_checked-IsAnswer :
      {ss : List Source} {n : ℕ} (hunkbytes : ℕ) (entry : MapEntry) (bytes : List ℕ)
      → length bytes ≡ hunkbytes
      → (HasCrc32 env entry bytes → IsHunk env ss n bytes)
      → IsAnswer env ss n (crc32_checked env entry hunkbytes bytes)
  unfolding crc32_checked
  crc32_checked-IsAnswer hunkbytes entry bytes size found =
      let bad =
        (bit_and entry.flags map_entry_flag_no_crc == 0)
        && not (env.chd_crc32 bytes == entry.crc) in
      elim (Bool-cases bad) [
        | inl wrong ↦ rw (take_all bytes hunkbytes size, wrong, crc32_checked) refused
        | inr right ↦
            rw (take_all bytes hunkbytes size, right, crc32_checked)
              (delivered (
                found (elim (Bool-cases (bit_and entry.flags map_entry_flag_no_crc == 0)) [
                  | inl has_crc ↦ inr (ground arith)
                  | inr has_none ↦ inl (λ z. ground arith)
                ])))
      ]

  crc16_checked-IsAnswer :
      {ss : List Source} {n : ℕ} (hunkbytes blockcrc : ℕ) (bytes : List ℕ)
      → length bytes ≡ hunkbytes
      → (chd_crc16 bytes ≡ blockcrc → IsHunk env ss n bytes)
      → IsAnswer env ss n (crc16_checked hunkbytes blockcrc bytes)
  unfolding crc16_checked
  crc16_checked-IsAnswer hunkbytes blockcrc bytes size found =
      elim (Bool-cases (chd_crc16 bytes == blockcrc)) [
        | inl right ↦
            rw (take_all bytes hunkbytes size, right, crc16_checked)
              (delivered (found (ground arith)))
        | inr wrong ↦ rw (take_all bytes hunkbytes size, wrong, crc16_checked) refused
      ]

  module _ (hunkbytes : ℕ) (file : List ℕ) (ss : List Source) (chd : ChdFile)
      (v : IsOpen env hunkbytes file ss chd) where
    reader-IsOpen :
        (r : Reader)
        → IsWindow file r
        → r.hunkbytes ≡ chd.reader.hunkbytes
        → IsOpen env hunkbytes file ss (record chd { reader = r })
    reader-IsOpen r w kept = record {
      same_size = v.same_size;
      reader_size = kept ∙ v.reader_size;
      well_formed = v.well_formed;
      window = w;
      reads = v.reads;
      cache = v.cache;
    }

    -- What a case that reads the file is to do.
    abbrev pub AnswersAlone : ℕ → HunkResult × ChdFile → Type 0
    AnswersAlone n (result, chd') =
        IsAnswer env (source file chd ∷ ss) n result × IsOpen env hunkbytes file ss chd'

    abbrev size : ℕ
    size = chd.header.hunkbytes

    pub legacy_compressed-Answers :
        (n : ℕ) (entry : MapEntry) (dest : List ℕ)
        → length dest ≡ size
        → IsEnvironment env
        → IsLegacyEntry (source file chd) n entry map_entry_type_compressed
        → IsEntry chd.header entry
        → AnswersAlone n (legacy_compressed env chd entry dest)
    unfolding legacy_compressed
    legacy_compressed-Answers n entry dest sized e at f =
        let tag = first_compression chd.header in
        let (window, right) =
          hunk_read_compressed-Answers file chd.seek_and_read v.reads chd.reader entry.offset
            entry.length v.window (f.no_wrap (omega (arith, at.3))).0 in
        let got = hunk_read_compressed chd.seek_and_read chd.reader entry.offset entry.length in
        (
          elim (Option-cases got.0) [
            | inl failed ↦ rw (failed, legacy_compressed) refused
            | inr (src, read) ↦ elim (Bool-cases (tag == 0)) [
              | inl without ↦
                  rw (read, without, legacy_compressed)
                    (crc32_checked-IsAnswer size entry dest sized
                      (Spec.legacy_no_codec at (ground arith) sized))
              | inr codec ↦ elim (Sum-cases (env.decompress tag src size)) [
                | inl (err, bad) ↦ rw (read, codec, bad, legacy_compressed) refused
                | inr (bytes, good) ↦
                    rw (read, codec, good, legacy_compressed)
                      (crc32_checked-IsAnswer size entry bytes (e.decoded tag src size bytes good)
                        (Spec.legacy_compressed at (right src read) (λ z. ground arith) good))
              ]
            ]
          ],
          reader-IsOpen got.1 window (
              hunk_read_compressed-hunkbytes chd.seek_and_read chd.reader entry.offset
                entry.length),
        )

    pub legacy_uncompressed-Answers :
        (n : ℕ) (entry : MapEntry) (dest : List ℕ)
        → length dest ≡ size
        → IsLegacyEntry (source file chd) n entry map_entry_type_uncompressed
        → IsEntry chd.header entry
        → AnswersAlone n (legacy_uncompressed env chd entry dest)
    unfolding legacy_uncompressed
    legacy_uncompressed-Answers n entry dest sized at f =
        let (window, right) =
          hunk_read_uncompressed-Answers file chd.seek_and_read v.reads chd.reader entry.offset size
            v.window (f.no_wrap (omega (arith, at.3))).1 in
        let got = hunk_read_uncompressed chd.seek_and_read chd.reader entry.offset size in
        (
          elim (Option-cases got.0) [
            | inl failed ↦ rw (failed, legacy_uncompressed) refused
            | inr (bytes, read) ↦
                let range = right bytes read in
                rw (read, overwrite_all dest bytes (range.1 ∙ sym sized), legacy_uncompressed)
                  (crc32_checked-IsAnswer size entry bytes range.1
                    (Spec.legacy_uncompressed at range))
          ],
          reader-IsOpen got.1 window
              (hunk_read_uncompressed-hunkbytes chd.seek_and_read chd.reader entry.offset size),
        )

    pub legacy_mini-IsAnswer :
        (n : ℕ) (entry : MapEntry) (dest : List ℕ)
        → length dest ≡ size
        → IsLegacyEntry (source file chd) n entry map_entry_type_mini
        → IsAnswer env (source file chd ∷ ss) n (legacy_mini env chd.header entry dest)
    unfolding legacy_mini
    legacy_mini-IsAnswer n entry dest sized at = elim (Bool-cases (ltb size 8)) [
      | inl too_small ↦ rw (too_small, legacy_mini) refused
      | inr fits ↦
          let filled = mini_fill-IsPattern entry.offset size dest (ground arith) sized in
          rw (fits, legacy_mini)
            (crc32_checked-IsAnswer size entry _ filled.0 (Spec.legacy_mini at filled))
    ]

    pub v5_compressed-Answers :
        (n : ℕ)
        → IsEnvironment env
        → IsBlock (source file chd) n
        → block_type chd.header n ≤ compression_type_3
        → AnswersAlone n (v5_compressed env chd n)
    unfolding v5_compressed
    v5_compressed-Answers n e block type =
        let entry = v.well_formed.blocks block.0 n block.1 in
        let offs = block_offs chd.header n in
        let len = block_len chd.header n in
        let tag = get_or chd.header.compression (block_type chd.header n) 0 in
        let (window, right) =
          hunk_read_compressed-Answers file chd.seek_and_read v.reads chd.reader offs len v.window
            entry.no_wrap in
        let got = hunk_read_compressed chd.seek_and_read chd.reader offs len in
        (
          elim (Option-cases got.0) [
            | inl failed ↦ rw (failed, v5_compressed) refused
            | inr (src, read) ↦ elim (Bool-cases (is_codec tag)) [
              | inr unknown ↦ rw (read, unknown, v5_compressed) refused
              | inl known ↦ elim (Sum-cases (env.decompress tag src size)) [
                | inl (err, bad) ↦ rw (read, known, bad, v5_compressed) refused
                | inr (bytes, good) ↦
                    rw (read, known, good, v5_compressed)
                      (crc16_checked-IsAnswer size (block_crc chd.header n) bytes
                        (e.decoded tag src size bytes good)
                        (Spec.block_compressed block type (right src read) good))
              ]
            ]
          ],
          reader-IsOpen got.1 window
              (hunk_read_compressed-hunkbytes chd.seek_and_read chd.reader offs len),
        )

    pub v5_uncompressed-Answers :
        (n : ℕ) (dest : List ℕ)
        → length dest ≡ size
        → IsBlock (source file chd) n
        → block_type chd.header n ≡ compression_none
        → AnswersAlone n (v5_uncompressed chd n dest)
    unfolding v5_uncompressed
    v5_uncompressed-Answers n dest sized block type =
        let entry = v.well_formed.blocks block.0 n block.1 in
        let offs = block_offs chd.header n in
        let len = block_len chd.header n in
        let (window, right) =
          hunk_read_uncompressed-Answers file chd.seek_and_read v.reads chd.reader offs len v.window
            entry.no_wrap in
        let got = hunk_read_uncompressed chd.seek_and_read chd.reader offs len in
        (
          elim (Option-cases got.0) [
            | inl failed ↦ rw (failed, v5_uncompressed) refused
            | inr (bytes, read) ↦
                let range : IsRange file offs size bytes =
                  subst (λ k. IsRange file offs k bytes) (entry.whole type) (right bytes read) in
                rw (read, overwrite_all dest bytes (range.1 ∙ sym sized), v5_uncompressed)
                  (crc16_checked-IsAnswer size (block_crc chd.header n) bytes range.1
                    (Spec.block_uncompressed block type range))
          ],
          reader-IsOpen got.1 window
              (hunk_read_uncompressed-hunkbytes chd.seek_and_read chd.reader offs len),
        )
