-- ===== src/Auth/RateLimiter/Overlap.antt =====
-- Calls of Allow of internal/auth/auth.go that overlap: the code has no lock, and net/http runs each
-- request in a goroutine of its own. A call is taken in two steps, up to its comparison and behind
-- it. The lists share arrays: the loop of a later call writes into the list of an earlier one, and
-- an append writes behind the own list; here the calls write in the order in which they compare, so
-- that the list of the last, which alone stays, is as it was read. That two goroutines at once in a
-- map can also end a Go process is not modelled.
use ooblivion.Shared.{
  ℕ, ◌≤◌, ◌<◌, Str, str_eq_refl, Bool, true, false, Option, none, some, List, [], ◌∷◌, ◌++◌, map,
  All, ◌≡◌, refl, arith, length, leb, if◌then◌else◌,
}
use ooblivion.Auth.RateLimiter.{RateLimiter, attempts_of, set_attempts, recent_from, allow}
use ooblivion.Auth.RateLimiter.Window.{recent}

-- Allow up to its comparison: the limiter, and the list to append to if the attempt may go on
unfoldable pub look : RateLimiter → Str → ℕ → RateLimiter × Option (List ℕ)
unfolding attempts_of set_attempts recent_from
look r ip now =
    let recent = recent_from now r.window [] (attempts_of ip r.attempts) in
    (
      record r { attempts = set_attempts ip recent r.attempts },
      if leb r.max (length recent) then none else some recent,
    )

-- Allow behind the comparison
unfoldable pub conclude : RateLimiter → Str → ℕ → Option (List ℕ) → RateLimiter × Bool
unfolding set_attempts
conclude r ip now none = (r, false)
conclude r ip now (some recent) =
    (record r { attempts = set_attempts ip (recent ++ now ∷ []) r.attempts }, true)

set_attempts-set_attempts :
    (ip : Str) (ts us : List ℕ) (m : List (Str × List ℕ))
    → set_attempts ip ts (set_attempts ip us m) ≡ set_attempts ip ts m
unfolding set_attempts
set_attempts-set_attempts ip ts us [] = rw (str_eq_refl ip) refl
set_attempts-set_attempts ip ts us ((k, vs) ∷ m) =
    ground (arith, set_attempts-set_attempts ip ts us m)

-- With nothing in between, the two steps are a call.
conclude-look :
    (r : RateLimiter) (ip : Str) (now : ℕ)
    → conclude (look r ip now).0 ip now (look r ip now).1 ≡ allow r ip now
unfolding conclude look allow
conclude-look r ip now = ground (
  arith,
  set_attempts-set_attempts ip (recent_from now r.window [] (attempts_of ip r.attempts) ++ now ∷ [])
      (recent_from now r.window [] (attempts_of ip r.attempts)) r.attempts,
)

module _ (ip : Str) where
  -- The calls compare one after the other.
  unfoldable pub all_look : RateLimiter → List ℕ → RateLimiter × List (ℕ × Option (List ℕ))
  all_look r [] = (r, [])
  all_look r (now ∷ nows) =
      let (r', found) = look r ip now in
      let (r'', more) = all_look r' nows in (r'', (now, found) ∷ more)

  -- Then they write, in the same order: the limiter, and what each call returns.
  unfoldable pub all_conclude : RateLimiter → List (ℕ × Option (List ℕ)) → RateLimiter × List Bool
  all_conclude r [] = (r, [])
  all_conclude r ((now, found) ∷ more) =
      let (r', good) = conclude r ip now found in
      let (r'', goods) = all_conclude r' more in (r'', good ∷ goods)

  -- Calls for one address, at these instants, that all compare before one of them writes.
  abbrev pub overlapping : RateLimiter → List ℕ → RateLimiter × List Bool
  overlapping r nows = let (r', found) = all_look r nows in all_conclude r' found

  abbrev held : RateLimiter → ℕ
  held r = length (attempts_of ip r.attempts)

  -- The call has found room.
  abbrev IsOpen : ℕ → ℕ × Option (List ℕ) → Type 0
  IsOpen max (now, none) = ⊥
  IsOpen max (now, some recent) = length recent < max

  -- What holds of calls that have compared.
  abbrev Compared : ℕ → List ℕ → RateLimiter × List (ℕ × Option (List ℕ)) → Type 0
  Compared max nows (r, found) =
      (held r ≤ max) × All (IsOpen max) found × (map (λ _. true) found ≡ map (λ _. true) nows)

  -- the limiter behind a call that has compared and found room
  abbrev looked : RateLimiter → ℕ → RateLimiter
  looked r now = record r { attempts = set_attempts ip (recent r ip now) r.attempts }

  abbrev Concluded : ℕ → List (ℕ × Option (List ℕ)) → RateLimiter × List Bool → Type 0
  Concluded max found (r, goods) = (goods ≡ map (λ _. true) found) × (held r ≤ max)
