-- ===== src/Capture/Bodies.antt =====
-- What readBody of internal/capture/capture.go keeps of a body, for every limit that the
-- configuration can hold.
use ooblivion.Shared.{
  ℕ, zero, suc, ◌≤◌, pos, negsuc, max_int64, Str, take, length, ltb, Bool, true, false, none, some,
  [], ◌∷◌, ◌≡◌, refl, ap, arith, if◌then◌else◌,
}
use ooblivion.Shared.Wrap.{wrap64_small, wrap64_negative}
use ooblivion.Http.{Body}
use ooblivion.Capture.{read_all, read_body}

length-take : (n : ℕ) (s : Str) → n ≤ length s → length (take n s) ≡ n
length-take zero s h = refl
length-take (suc n) [] h = absurd (omega arith)
length-take (suc n) (c ∷ s) h = omega (arith, length-take n s)

take-take-suc : (n : ℕ) (s : Str) → take n (take (suc n) s) ≡ take n s
take-take-suc zero s = refl
take-take-suc (suc n) [] = refl
take-take-suc (suc n) (c ∷ s) = ap (◌∷◌ c) (take-take-suc n s)

-- What is kept of a body under a limit: its first bytes up to the limit, flagged if there are more;
-- nothing of a body that breaks off before that.
abbrev pub kept : ℕ → Body → Str × Bool
kept max_body body =
    if ltb max_body (length body.bytes)
    then (take max_body body.bytes, true)
    else if body.broken
    then ([], false)
    else (body.bytes, false)

-- Under a limit from 0 to 2^63 - 2 the stored body is the first `max_body` bytes of the body,
-- flagged as truncated exactly when the body is longer; a body that breaks off within the limit is
-- stored as empty.
pub read_body_lem :
    (max_body : ℕ) (body : Body)
    → suc max_body ≤ max_int64
    → read_body (pos max_body) (some body) ≡ some (kept max_body body)
unfolding read_body read_all
read_body_lem max_body body h = ground (
  arith,
  wrap64_small (suc max_body) h,
  length-take (suc max_body) body.bytes,
  take-take-suc max_body body.bytes,
)

-- A negative limit makes readBody panic on every body.
pub read_body_negative :
    (n : ℕ) (body : Body) → n ≤ max_int64 → read_body (negsuc n) (some body) ≡ none
unfolding read_body read_all
read_body_negative zero body h = ground arith
read_body_negative (suc n) body h = ground (arith, wrap64_negative n (omega arith))

read_all_nothing : (n : ℕ) (body : Body) → read_all (negsuc n) body ≡ some []
unfolding read_all
read_all_nothing n body = ground arith

-- With the largest limit the sum `max_body + 1` wraps, and nothing of any body is stored.
pub read_body_overflow : (body : Body) → read_body (pos max_int64) (some body) ≡ some ([], false)
unfolding read_body
read_body_overflow body = rw (read_body, read_all_nothing) refl
