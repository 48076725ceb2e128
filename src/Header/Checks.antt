-- ===== src/Header/Checks.antt =====
-- What the tests of `header_read` in src/libchdr_chd.c establish, by themselves.
use libchdr.Prelude.{ℕ, ◌+◌, ◌-◌, ◌*◌, ◌^◌, ◌≤◌, ◌<◌, ◌≡◌, refl, subst, ap, ◌∙◌, arith}
use libchdr.Prelude.{u64, bit_and, List, get_or, Bool, true, false, ltb, leb, ◌==◌, not, ◌&&◌, ◌||◌}
use libchdr.Prelude.{◌⊎◌, inl, inr, Bool-cases}
use native.Mathlib.Nat.{mod-lt, mod-eq_of_lt, mul-le-mul}
use libchdr.Errors.{ChdError}
use libchdr.Bytes.{get_bigendian_uint32, get_bigendian_uint64}
use libchdr.Bytes.Order.{IsBytes, get_bigendian-eq}
use libchdr.Header.Fields.{ChdHeader, v5_fields, count_of}
use libchdr.Header.Rejects.{
  unknown_format, bad_hunks, bad_parent, bad_geometry, is_supported, reject_if, legacy_rejected,
  size_rejected, map_rejected, entry_size, map_end, validate,
}
use libchdr.Header.Read.{header_sizes, read_v5_fields}

-- A test that did not end with an error.
pub or_false : (a b : Bool) → (a || b) ≡ false → (a ≡ false) × (b ≡ false)
or_false true b e = absurd (cc)
or_false false b e = (refl, e)

pub get_bigendian_uint32-lt :
    (base : List ℕ) (i : ℕ) → IsBytes base → get_bigendian_uint32 base i < 2 ^ 32
get_bigendian_uint32-lt base i bytes = omega (
  arith,
  (get_bigendian-eq base i bytes).2,
  bytes (i + 0),
  bytes (i + 1),
  bytes (i + 2),
  bytes (i + 3),
)

-- What the fields are before the tests of `validate`.
pub record IsRead (start h : ChdHeader) : Type 0 where
  pub same_version : h.version ≡ start.version
  pub same_length : h.length ≡ start.length
  pub some_units : 0 < h.unitbytes
  pub few_hunks : h.totalhunks < 2 ^ 32
  pub some_bytes : h.version ≡ 5 → 0 < h.hunkbytes

and_false : (a b : Bool) → (a && b) ≡ false → a ≡ true → b ≡ false
and_false true b e h = e
and_false false b e h = cc

not-false : (b : Bool) → not b ≡ false → b ≡ true
not-false true e = refl
not-false false e = cc

pub positive : (n : ℕ) → (n == 0) ≡ false → 0 < n
positive n e = ground arith

-- A success has the property.
abbrev pub Gives : (ChdHeader → Type 0) → ChdError ⊎ ChdHeader → Type 0
Gives P result = (h : ChdHeader) → result ≡ inr h → P h

pub reject_if-Gives :
    (P : ChdHeader → Type 0) (b : Bool) (h : ChdHeader)
    → (b ≡ false → P h)
    → Gives P (reject_if b h)
reject_if-Gives P true h f h' e = absurd (cc)
reject_if-Gives P false h f h' e = let same : h ≡ h' = cc in subst P same (f refl)

pub error-Gives : (P : ChdHeader → Type 0) (err : ChdError) → Gives P (inl err)
error-Gives P err h e = absurd (cc)

pub read_v5_fields-IsRead : (raw : List ℕ) (h : ChdHeader) → Gives (IsRead h) (read_v5_fields raw h)
unfolding read_v5_fields
read_v5_fields-IsRead raw h =
    let hunkbytes = get_bigendian_uint32 raw 56 in
    let unitbytes = get_bigendian_uint32 raw 60 in
    reject_if-Gives (IsRead h) ((hunkbytes == 0) || (unitbytes == 0)) (v5_fields raw h) λ ok.
      record {
        same_version = refl;
        same_length = refl;
        some_units = ground arith;
        few_hunks = mod-lt (count_of (get_bigendian_uint64 raw 32) hunkbytes) (omega arith);
        some_bytes = λ v. ground arith;
      }

-- What a header is that is not rejected.
pub record IsValid (file_size : ℕ) (h : ChdHeader) : Type 0 where
  pub from_1 : 1 ≤ h.version
  pub to_5 : h.version ≤ 5
  pub known_length : h.length ≡ get_or header_sizes (h.version - 1) 0
  pub some_units : 0 < h.unitbytes
  pub some_bytes : 0 < h.hunkbytes
  pub hunk_limit : h.hunkbytes < 2 ^ 27
  pub few_hunks : h.totalhunks < 2 ^ 32
  pub total_limit : h.hunkbytes * h.totalhunks < 2 ^ 40
  pub some_hunks : h.version < 5 → 0 < h.totalhunks
  pub known_codec : h.version < 5 → is_supported (get_or h.compression 0 0) ≡ true
  pub map_fits : h.version < 5 → h.length + h.totalhunks * entry_size h ≤ file_size

pub equal : (a b : ℕ) → (a == b) ≡ true → a ≡ b
equal a b e = ground arith

pub below : (a b : ℕ) → ltb a b ≡ false → b ≤ a
below a b e = ground arith

legacy_rejected-false :
    (h : ChdHeader)
    → legacy_rejected h ≡ false
    → (is_supported (get_or h.compression 0 0) ≡ true) × (0 < h.hunkbytes) × (0 < h.totalhunks)
unfolding legacy_rejected
legacy_rejected-false h e =
    let (early, late) =
      or_false (unknown_format h || bad_hunks h) (bad_parent h || bad_geometry h) e in
    let (format, hunks) = or_false (unknown_format h) (bad_hunks h) early in
    let codec = is_supported (get_or h.compression 0 0) in
    let (flags, known) = or_false (not (bit_and h.flags 0xfffffffc == 0)) (not codec) format in
    let (bytes, some_hunks) =
      or_false ((h.hunkbytes == 0) || leb (65536 * 256) h.hunkbytes) (h.totalhunks == 0) hunks in
    let (some_bytes, limit) = or_false (h.hunkbytes == 0) (leb (65536 * 256) h.hunkbytes) bytes in
    (not-false codec known, positive h.hunkbytes some_bytes, positive h.totalhunks some_hunks)

size_rejected-false :
    (h : ChdHeader)
    → h.totalhunks < 2 ^ 32
    → size_rejected h ≡ false
    → (h.hunkbytes < 2 ^ 27) × (h.hunkbytes * h.totalhunks < 2 ^ 40)
unfolding size_rejected
size_rejected-false h few e =
    let (small, total) =
      or_false (leb (128 * 1024 * 1024) h.hunkbytes)
        (leb (1024 * 1024 * 1024 * 1024) (u64 (h.hunkbytes * h.totalhunks))) e in
    let limit : h.hunkbytes < 2 ^ 27 = ground arith in
    let product : h.hunkbytes * h.totalhunks ≤ 2 ^ 27 * 2 ^ 32 =
      mul-le-mul {n₂ = 2 ^ 27} {m₂ = 2 ^ 32} (omega (arith, limit)) (omega (arith, few)) in
    let exact : u64 (h.hunkbytes * h.totalhunks) ≡ h.hunkbytes * h.totalhunks =
      mod-eq_of_lt (omega (arith, product)) in
    (limit, ground (arith, exact))

map_rejected-false :
    (file_size : ℕ) (h : ChdHeader)
    → h.version < 5
    → h.length < 2 ^ 32
    → h.totalhunks < 2 ^ 32
    → map_rejected file_size h ≡ false
    → h.length + h.totalhunks * entry_size h ≤ file_size
unfolding map_rejected
map_rejected-false file_size h old short few e =
    let size : entry_size h ≤ 16 = ground arith in
    let product : h.totalhunks * entry_size h ≤ 2 ^ 32 * 16 =
      mul-le-mul {n₂ = 2 ^ 32} {m₂ = 16} (omega (arith, few)) size in
    let exact : u64 (h.totalhunks * entry_size h) ≡ h.totalhunks * entry_size h =
      mod-eq_of_lt (omega (arith, product)) in
    let end : map_end h ≡ h.length + h.totalhunks * entry_size h =
      ap (λ n. u64 (h.length + n)) exact ∙ mod-eq_of_lt (omega (arith, product, short)) in
    let tested : (ltb (map_end h) h.length || ltb file_size (map_end h)) ≡ false =
      and_false (ltb h.version 5) (ltb (map_end h) h.length || ltb file_size (map_end h)) e
        (ground arith) in
    let (wraps, fits) = or_false (ltb (map_end h) h.length) (ltb file_size (map_end h)) tested in
    subst (λ n. n ≤ file_size) end (below file_size (map_end h) fits)

pub validate-IsValid :
    (file_size : ℕ) (start h : ChdHeader)
    → 1 ≤ start.version
    → start.version ≤ 5
    → start.length < 2 ^ 32
    → start.length ≡ get_or header_sizes (start.version - 1) 0
    → IsRead start h
    → Gives (IsValid file_size) (validate file_size h)
unfolding validate
validate-IsValid file_size start h from to short known r =
    let bad = (leb h.version 4 && legacy_rejected h) in
    reject_if-Gives (IsValid file_size) (bad || (size_rejected h || map_rejected file_size h)) h
      λ e.
        let (legacy, rest) = or_false bad (size_rejected h || map_rejected file_size h) e in
        let (size, map) = or_false (size_rejected h) (map_rejected file_size h) rest in
        let (limit, total) = size_rejected-false h r.few_hunks size in
        let tested : h.version < 5 → legacy_rejected h ≡ false = λ old. ground arith in
        record {
          from_1 = omega (arith, r.same_version);
          to_5 = omega (arith, r.same_version);
          known_length = r.same_length ∙ known ∙ rw (r.same_version) refl;
          some_units = r.some_units;
          some_bytes = elim (Bool-cases (ltb h.version 5)) [
            | inl old ↦ (legacy_rejected-false h (tested (ground arith))).1
            | inr new ↦ r.some_bytes (let same = r.same_version in ground arith)
          ];
          hunk_limit = limit;
          few_hunks = r.few_hunks;
          total_limit = total;
          some_hunks = λ old. (legacy_rejected-false h (tested old)).2;
          known_codec = λ old. (legacy_rejected-false h (tested old)).0;
          map_fits = λ old.
              map_rejected-false file_size h old (omega (arith, r.same_length)) r.few_hunks map;
        }
