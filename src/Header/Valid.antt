-- ===== src/Header/Valid.antt =====
-- A header that `header_read` of src/libchdr_chd.c accepts is valid.
use libchdr.Prelude.{ℕ, ◌-◌, ◌^◌, ◌≤◌, ◌<◌, ◌≡◌, ◌≢◌, refl, arith}
use libchdr.Prelude.{Bool, true, false}
use libchdr.Prelude.{List, get_or, ltb, ◌==◌, ◌||◌}
use libchdr.Prelude.{Option, some, inl, inr, Bool-cases, Option-cases, Sum-cases}
use libchdr.Bytes.{get_bigendian_uint32}
use libchdr.Bytes.Order.{IsBytes}
use libchdr.Header.Fields.{
  ChdHeader, start_header, old_fields, v3_fields, v4_fields, hunk_length, count_of,
}
use libchdr.Header.Read.{
  header_sizes, header_tag, same_bytes, get_units, header_guess_unitbytes, read_old_fields,
  read_fields, read_rest, header_read,
}
-- A test that did not end with an error.
use libchdr.Header.Checks.{
  Gives, IsRead, IsValid, or_false, positive, equal, below, error-Gives, reject_if-Gives,
  validate-IsValid, read_v5_fields-IsRead, get_bigendian_uint32-lt,
}

module _ (seek_and_read : ℕ → ℕ → Option (List ℕ)) (sprintf : ℕ → ℕ → ℕ → ℕ → List ℕ)
    (sscanf : List ℕ → Option ℕ) where
  get_units-IsRead :
      (start h : ChdHeader)
      → h.version ≡ start.version
      → h.length ≡ start.length
      → h.totalhunks < 2 ^ 32
      → h.version ≢ 5
      → Gives (IsRead start) (get_units seek_and_read sprintf sscanf h)
  unfolding get_units
  get_units-IsRead start h version length few old =
      let unitbytes = header_guess_unitbytes seek_and_read sprintf sscanf h in
      let h' : ChdHeader = record h {
        unitbytes = unitbytes;
        unitcount = count_of h.logicalbytes unitbytes;
      } in
      reject_if-Gives (IsRead start) (unitbytes == 0) h' λ ok. record {
        same_version = version;
        same_length = length;
        some_units = positive unitbytes ok;
        few_hunks = few;
        some_bytes = λ v. absurd (old v);
      }

  read_fields-IsRead :
      (raw : List ℕ) (h : ChdHeader)
      → IsBytes raw
      → Gives (IsRead h) (read_fields seek_and_read sprintf sscanf raw h)
  unfolding read_fields read_old_fields
  read_fields-IsRead raw h bytes =
      let few : (i : ℕ) → get_bigendian_uint32 raw i < 2 ^ 32 =
        λ i. get_bigendian_uint32-lt raw i bytes in
      elim (Bool-cases ((h.version == 1) || (h.version == 2))) [
        | inl old ↦
            elim (Bool-cases ((hunk_length raw h == 0) || ltb 0xffffffff (hunk_length raw h))) [
              | inl bad ↦ rw (old, bad, read_fields) (error-Gives (IsRead h) _)
              | inr good ↦
                  rw (old, good, read_fields)
                    (get_units-IsRead h (old_fields raw h) refl refl (few 28) (λ z. ground arith))
            ]
        | inr not_old ↦ elim (Bool-cases (h.version == 3)) [
          | inl three ↦
              rw (not_old, three, read_fields)
                (get_units-IsRead h (v3_fields raw h) refl refl (few 24) (λ z. ground arith))
          | inr not_three ↦ elim (Bool-cases (h.version == 4)) [
            | inl four ↦
                rw (not_old, not_three, four, read_fields)
                  (get_units-IsRead h (v4_fields raw h) refl refl (few 24) (λ z. ground arith))
            | inr not_four ↦ elim (Bool-cases (h.version == 5)) [
              | inl five ↦
                  rw (not_old, not_three, not_four, five, read_fields) (read_v5_fields-IsRead raw h)
              | inr unknown ↦
                  rw (not_old, not_three, not_four, unknown, read_fields) (error-Gives (IsRead h) _)
            ]
          ]
        ]
      ]

  -- The callbacks return bytes.
  abbrev pub ReadsBytes : Type 0
  ReadsBytes = (i n : ℕ) (raw : List ℕ) → seek_and_read i n ≡ some raw → IsBytes raw

  read_rest-IsValid :
      (file_size : ℕ) (raw : List ℕ) (start : ChdHeader)
      → 1 ≤ start.version
      → start.version ≤ 5
      → start.length < 2 ^ 32
      → start.length ≡ get_or header_sizes (start.version - 1) 0
      → IsBytes raw
      → Gives (IsValid file_size) (read_rest seek_and_read sprintf sscanf file_size raw start)
  unfolding read_rest
  read_rest-IsValid file_size raw start from to short known bytes =
      elim (Sum-cases (read_fields seek_and_read sprintf sscanf raw start)) [
        | inl (err, bad) ↦ rw (bad, read_rest) (error-Gives (IsValid file_size) err)
        | inr (h, good) ↦
            rw (good, read_rest)
              (validate-IsValid file_size start h from to short known
                (read_fields-IsRead raw start bytes h good))
      ]

  -- A header that `header_read` accepts has a version from 1 to 5 and its length, a hunk of a byte at
  -- least and of less than 128 MB, units of a byte at least, less than 1 TB of hunks and, for the
  -- versions 1 to 4, a hunk at least, a known codec and a map that fits into the file. These are
  -- bounds of the exact values, not of the wrapped ones. The callbacks return bytes.
  pub header_read-IsValid :
      (has_chd has_callbacks : Bool) (file_size : ℕ) (h : ChdHeader)
      → ReadsBytes
      → header_read seek_and_read sprintf sscanf has_chd has_callbacks file_size ≡ inr h
      → IsValid file_size h
  unfolding header_read read_rest
  header_read-IsValid false has_callbacks file_size h bytes = error-Gives (IsValid file_size) _ h
  header_read-IsValid true false file_size h bytes = error-Gives (IsValid file_size) _ h
  header_read-IsValid true true file_size h bytes =
      let refuse = error-Gives (IsValid file_size) in
      elim (Option-cases (seek_and_read 0 16)) [
        | inl failed ↦ rw (failed, header_read) (refuse _ h)
        | inr (raw, got) ↦
            let length = get_bigendian_uint32 raw 8 in
            let version = get_bigendian_uint32 raw 12 in
            elim (Bool-cases (same_bytes header_tag raw 0)) [
              | inr other ↦ rw (got, other, header_read) (refuse _ h)
              | inl tagged ↦ elim (Bool-cases ((version == 0) || ltb 5 version)) [
                | inl unknown ↦ rw (got, tagged, unknown, header_read) (refuse _ h)
                | inr numbered ↦ elim (Bool-cases (length == get_or header_sizes (version - 1) 0)) [
                  | inr wrong ↦ rw (got, tagged, numbered, wrong, header_read) (refuse _ h)
                  | inl exact ↦ elim (Option-cases (seek_and_read 0 length)) [
                    | inl failed ↦
                        rw (got, tagged, numbered, exact, failed, header_read) (refuse _ h)
                    | inr (whole, got') ↦
                        let (from, to) = or_false (version == 0) (ltb 5 version) numbered in
                        rw (got, tagged, numbered, exact, got', header_read)
                          (read_rest-IsValid file_size whole (start_header length version)
                            (positive version from) (below 5 version to)
                            (get_bigendian_uint32-lt raw 8 (bytes 0 16 raw got))
                            (equal length _ exact) (bytes 0 length whole got') h)
                  ]
                ]
              ]
            ]
      ]
