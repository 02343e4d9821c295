-- ===== src/Admin/Sizes.antt =====
-- humanBytes of internal/admin/handlers_requests.go. A size below 2^53 and its quotients by powers of
-- 1024 are exact floats, so a float is written as the size over such a power; `%.1f` rounds to the
-- nearest tenth, and half-way to the even one.
use ooblivion.Shared.{
  ℕ, ◌+◌, ◌*◌, ◌/◌, ◌%◌, ◌≤◌, ◌<◌, ◌≡◌, arith, Str, codes, itoa_ℕ, List, [], ◌∷◌, ◌++◌, ltb, leb,
  ◌==◌, ◌⊎◌, if◌then◌else◌,
}

-- a / d, rounded
unfoldable pub rounded : ℕ → ℕ → ℕ
rounded a d =
    if ltb (2 * (a % d)) d
    then a / d
    else if ltb d (2 * (a % d))
    then a / d + 1
    else if (a / d) % 2 == 0
    then a / d
    else a / d + 1

-- the loop: the divisor and the unit
unfoldable pub scaled : ℕ → ℕ → Str → List Str → ℕ × Str
scaled n d unit [] = (d, unit)
scaled n d unit (u ∷ us) =
    let further = scaled n (1024 * d) u us in if leb (1024 * d) n then further else (d, unit)

abbrev pub units : List Str
units = codes "KiB" ∷ codes "MiB" ∷ codes "GiB" ∷ codes "TiB" ∷ []

abbrev pub tenths : ℕ → Str
tenths t = itoa_ℕ (t / 10) ++ codes "." ++ itoa_ℕ (t % 10)

unfoldable pub human_bytes : ℕ → Str
unfolding scaled rounded
human_bytes n =
    if ltb n 1024
    then itoa_ℕ n ++ codes " B"
    else let (d, unit) = scaled n 1 [] units in tenths (rounded (10 * n) d) ++ codes " " ++ unit

-- The rounded quotient is at most half a unit off.
rounded_bounds :
    (a d : ℕ) → 0 < d → (2 * a ≤ 2 * (rounded a d * d) + d) × (2 * (rounded a d * d) ≤ 2 * a + d)
unfolding rounded
rounded_bounds a d h = grind arith

-- The divisor fits the size: it is the largest that the units allow.
scaled_bounds :
    (n : ℕ)
    → 1024 ≤ n
    → let d = (scaled n 1 [] units).0 in
      (d ≤ n) × ((n < 1024 * d) ⊎ (d ≡ 1024 * 1024 * 1024 * 1024)) × (0 < d)
unfolding scaled
scaled_bounds n h = ground arith

-- A size from 1024 on is shown in tenths of a unit of `d` bytes, with a power of 1024 for `d` that
-- leaves a number below 1024 where the units allow it; what is shown is at most half a tenth off.
pub human_bytes_lem :
    (n : ℕ)
    → 1024 ≤ n
    → let (d, unit) = scaled n 1 [] units in
      let t = rounded (10 * n) d in
      (human_bytes n ≡ tenths t ++ codes " " ++ unit)
      × (d ≤ n)
      × ((n < 1024 * d) ⊎ (d ≡ 1024 * 1024 * 1024 * 1024))
      × (2 * (10 * n) ≤ 2 * (t * d) + d)
      × (2 * (t * d) ≤ 2 * (10 * n) + d)
unfolding human_bytes
human_bytes_lem n h =
    let (fits, largest, positive) = scaled_bounds n h in
    let (above, below) = rounded_bounds (10 * n) (scaled n 1 [] units).0 positive in
    (ground (arith, h), fits, largest, above, below)
