-- ===== src/Tests/Auth.antt =====
-- internal/auth/auth.go.
use ooblivion.Shared.{ℕ, ◌≤◌, ◌<◌, ◌≡◌, ◌↔◌, arith, Str, codes, List, [], ◌∷◌, true}
use ooblivion.Auth.RateLimiter.{allow}
use ooblivion.Auth.RateLimiter.Window.{history, within, run_bounded, allow_iff}

abbrev events : List (Str × ℕ)
events = (codes "a", 10) ∷ (codes "a", 11) ∷ (codes "b", 12) ∷ (codes "a", 13) ∷ []

run_bounded_example : within 20 10 (history 2 10 (codes "a") events).1 ≤ 2
run_bounded_example = run_bounded 2 10 (codes "a") events (omega arith) 20 (omega arith)

allow_iff_example :
    ((allow (history 2 10 (codes "a") events).0 (codes "a") 20).1 ≡ true)
    ↔ (within 20 10 (history 2 10 (codes "a") events).1 < 2)
allow_iff_example = allow_iff 2 10 (codes "a") events (omega arith) 20 (omega arith)
