-- ===== src/Auth/RateLimiter.antt =====
-- RateLimiter of internal/auth/auth.go. Instants and the window are nanoseconds, on a clock that
-- has run for at least one window. `recent` shares its array with the list that the loop reads, and
-- writes behind the reading position, so that the loop sees the old entries.
pub mod Window
pub mod Overlap
use ooblivion.Shared.{
  ℕ, ◌+◌, ◌-◌, Str, str_eq, Bool, true, false, List, [], ◌∷◌, ◌++◌, filter, length, ltb, leb,
  if◌then◌else◌,
}

pub record RateLimiter : Type 0 where
  pub attempts : List (Str × List ℕ)
  pub window : ℕ
  pub max : ℕ

-- r.attempts[ip]; a missing key is the empty list
unfoldable pub attempts_of : Str → List (Str × List ℕ) → List ℕ
attempts_of ip [] = []
attempts_of ip ((k, ts) ∷ m) = if str_eq k ip then ts else attempts_of ip m

unfoldable pub set_attempts : Str → List ℕ → List (Str × List ℕ) → List (Str × List ℕ)
set_attempts ip ts [] = (ip, ts) ∷ []
set_attempts ip ts ((k, us) ∷ m) =
    if str_eq k ip then (k, ts) ∷ m else (k, us) ∷ set_attempts ip ts m

-- t.After(cutoff), with cutoff = now - window
abbrev pub is_recent : ℕ → ℕ → ℕ → Bool
is_recent now window t = ltb now (t + window)

-- the loop: the entries after the cutoff, behind those already kept
unfoldable pub recent_from : ℕ → ℕ → List ℕ → List ℕ → List ℕ
recent_from now window kept [] = kept
recent_from now window kept (t ∷ ts) =
    recent_from now window (if is_recent now window t then kept ++ t ∷ [] else kept) ts

-- Allow, with no other call in between: the limiter afterwards, and whether the attempt may go on
unfoldable pub allow : RateLimiter → Str → ℕ → RateLimiter × Bool
unfolding attempts_of set_attempts recent_from
allow r ip now =
    let recent = recent_from now r.window [] (attempts_of ip r.attempts) in
    if leb r.max (length recent)
    then (record r { attempts = set_attempts ip recent r.attempts }, false)
    else (record r { attempts = set_attempts ip (recent ++ now ∷ []) r.attempts }, true)
