-- ===== src/Hunk/Mini.antt =====
-- The data of an entry of the type MINI: the loop of `hunk_read_into_memory` repeats the 8 bytes that
-- are written first.
use libchdr.Prelude.{ℕ, zero, suc, ◌+◌, ◌-◌, ◌*◌, ◌/◌, ◌%◌, ◌^◌, ◌≤◌, ◌<◌, ◌≡◌, refl, subst, arith}
use libchdr.Prelude.{u8, List, [], ◌∷◌, length, get_or, set, length-set, get_or-set}
use libchdr.Prelude.{Bool-cases, inl, inr, ◌==◌}
use libchdr.Bytes.{put_bigendian_uint64}
use libchdr.Hunk.Stored.{mini_fill}
use libchdr.Hunk.Spec.{IsPattern}

-- A byte of the pattern.
abbrev pattern_byte : ℕ → ℕ → ℕ
pattern_byte offset j = u8 (offset / 2 ^ (8 * (7 - j % 8)))

abbrev StartsWith : ℕ → ℕ → List ℕ → Type 0
StartsWith offset i dest = (j : ℕ) → j < i → get_or dest j 0 ≡ pattern_byte offset j

pattern_byte-back : (offset i : ℕ) → 8 ≤ i → pattern_byte offset (i - 8) ≡ pattern_byte offset i
pattern_byte-back offset i h = let same : (i - 8) % 8 ≡ i % 8 = omega arith in rw same refl

mini_fill-StartsWith :
    (offset count i : ℕ) (dest : List ℕ)
    → 8 ≤ i
    → length dest ≡ i + count
    → StartsWith offset i dest
    → IsPattern offset (i + count) (mini_fill count i dest)
mini_fill-StartsWith offset zero i dest h size from = (size, λ j below. from j (omega arith))
mini_fill-StartsWith offset (suc count) i dest h size from =
    let dest' = set dest i (get_or dest (i - 8) 0) in
    let sum : suc i + count ≡ i + suc count = omega arith in
    let more : StartsWith offset (suc i) dest' = λ j below. elim (Bool-cases (i == j)) [
      | inl here ↦ ground (
        arith,
        get_or-set dest i (get_or dest (i - 8) 0) j 0,
        from (i - 8),
        pattern_byte-back offset i h,
      )
      | inr other ↦ ground (arith, get_or-set dest i (get_or dest (i - 8) 0) j 0, from j)
    ] in
    subst (λ n. IsPattern offset n (mini_fill count (suc i) dest')) sum
      (mini_fill-StartsWith offset count (suc i) dest' (omega arith)
        (omega (arith, length-set dest i (get_or dest (i - 8) 0), size)) more)

abbrev eight_bytes : ℕ → List ℕ → List ℕ
eight_bytes offset rest =
    u8 (offset / 2 ^ 56)
    ∷ u8 (offset / 2 ^ 48)
    ∷ u8 (offset / 2 ^ 40)
    ∷ u8 (offset / 2 ^ 32)
    ∷ u8 (offset / 2 ^ 24)
    ∷ u8 (offset / 2 ^ 16)
    ∷ u8 (offset / 2 ^ 8)
    ∷ u8 offset
    ∷ rest

eight_bytes-StartsWith :
    (offset : ℕ) (rest : List ℕ) → StartsWith offset 8 (eight_bytes offset rest)
eight_bytes-StartsWith offset rest zero below = refl
eight_bytes-StartsWith offset rest (suc zero) below = refl
eight_bytes-StartsWith offset rest (suc (suc zero)) below = refl
eight_bytes-StartsWith offset rest (suc (suc (suc zero))) below = refl
eight_bytes-StartsWith offset rest (suc (suc (suc (suc zero)))) below = refl
eight_bytes-StartsWith offset rest (suc (suc (suc (suc (suc zero))))) below = refl
eight_bytes-StartsWith offset rest (suc (suc (suc (suc (suc (suc zero)))))) below = refl
eight_bytes-StartsWith offset rest (suc (suc (suc (suc (suc (suc (suc zero))))))) below =
    omega arith
eight_bytes-StartsWith offset rest (suc (suc (suc (suc (suc (suc (suc (suc j)))))))) below =
    absurd (omega arith)

put_bigendian_uint64-StartsWith :
    (offset : ℕ) (dest : List ℕ)
    → 8 ≤ length dest
    → (length (put_bigendian_uint64 dest 0 offset) ≡ length dest)
      × StartsWith offset 8 (put_bigendian_uint64 dest 0 offset)
unfolding put_bigendian_uint64
put_bigendian_uint64-StartsWith offset [] h = absurd (omega arith)
put_bigendian_uint64-StartsWith offset (a ∷ []) h = absurd (omega arith)
put_bigendian_uint64-StartsWith offset (a ∷ b ∷ []) h = absurd (omega arith)
put_bigendian_uint64-StartsWith offset (a ∷ b ∷ c ∷ []) h = absurd (omega arith)
put_bigendian_uint64-StartsWith offset (a ∷ b ∷ c ∷ d ∷ []) h = absurd (omega arith)
put_bigendian_uint64-StartsWith offset (a ∷ b ∷ c ∷ d ∷ e ∷ []) h = absurd (omega arith)
put_bigendian_uint64-StartsWith offset (a ∷ b ∷ c ∷ d ∷ e ∷ f ∷ []) h = absurd (omega arith)
put_bigendian_uint64-StartsWith offset (a ∷ b ∷ c ∷ d ∷ e ∷ f ∷ g ∷ []) h = absurd (omega arith)
put_bigendian_uint64-StartsWith offset (a ∷ b ∷ c ∷ d ∷ e ∷ f ∷ g ∷ k ∷ rest) h =
    (refl, eight_bytes-StartsWith offset rest)

-- The whole of an entry's data.
pub mini_fill-IsPattern :
    (offset hunkbytes : ℕ) (dest : List ℕ)
    → 8 ≤ hunkbytes
    → length dest ≡ hunkbytes
    → IsPattern offset hunkbytes (mini_fill (hunkbytes - 8) 8 (put_bigendian_uint64 dest 0 offset))
mini_fill-IsPattern offset hunkbytes dest h size =
    let (same_size, from) = put_bigendian_uint64-StartsWith offset dest (omega (arith, size)) in
    let sum : 8 + (hunkbytes - 8) ≡ hunkbytes = omega arith in
    let start = put_bigendian_uint64 dest 0 offset in
    subst (λ n. IsPattern offset n (mini_fill (hunkbytes - 8) 8 start)) sum
      (mini_fill-StartsWith offset (hunkbytes - 8) 8 start (omega arith)
        (omega (arith, same_size, size)) from)
