-- ===== src/Auth/RateLimiter/Window.antt =====
-- The limiter of internal/auth/auth.go over a whole history of attempts, each call of Allow made after
-- the one before has returned.
use mathlib.Core.List.{append-nil, append_assoc}
use ooblivion.Shared.{
  ℕ, ◌+◌, ◌≤◌, ◌<◌, Str, str_eq, str_eq_iff, str_eq_refl, true, false, ◌&&◌, List, [], ◌∷◌, ◌++◌,
  ◌≡◌, inl, inr, refl, sym, ap, ◌∙◌, ◌↔◌, arith, filter, length, length-append, leb, Bool-cases,
  if◌then◌else◌,
}
use ooblivion.Shared.Select.{filter-filter, filter-append}
use ooblivion.Auth.RateLimiter.{
  RateLimiter, attempts_of, set_attempts, is_recent, recent_from, allow,
}

pub attempts_of-set_attempts :
    (ip k : Str) (ts : List ℕ) (m : List (Str × List ℕ))
    → attempts_of k (set_attempts ip ts m) ≡ (if str_eq ip k then ts else attempts_of k m)
unfolding attempts_of set_attempts
attempts_of-set_attempts ip k ts [] = refl
attempts_of-set_attempts ip k ts ((j, us) ∷ m) =
    ground
      (arith, str_eq_iff ip k, str_eq_iff j k, str_eq_iff j ip, attempts_of-set_attempts ip k ts m)

pub recent_from-filter :
    (now window : ℕ) (kept ts : List ℕ)
    → recent_from now window kept ts ≡ kept ++ filter (is_recent now window) ts
unfolding recent_from filter
recent_from-filter now window kept [] = sym (append-nil kept)
recent_from-filter now window kept (t ∷ ts) = elim (Bool-cases (is_recent now window t)) [
  | inl late ↦
      rw late (recent_from-filter now window (kept ++ t ∷ []) ts ∙ append_assoc kept (t ∷ []) _)
  | inr early ↦ rw early (recent_from-filter now window kept ts)
]

-- A history of attempts, each with its address and its instant: the limiter afterwards, and the
-- instants of those attempts of `ip` that were let through, behind `past`.
unfoldable pub run : RateLimiter → Str → List ℕ → List (Str × ℕ) → RateLimiter × List ℕ
run r ip past [] = (r, past)
run r ip past ((k, now) ∷ events) =
    let (r', through) = allow r k now in
    run r' ip (if str_eq k ip && through then past ++ now ∷ [] else past) events

-- The clock does not go back.
abbrev pub IsMonotone : ℕ → List (Str × ℕ) → Type 0
IsMonotone last [] = Unit
IsMonotone last ((k, now) ∷ events) = (last ≤ now) × IsMonotone now events

abbrev pub last_of : ℕ → List (Str × ℕ) → ℕ
last_of last [] = last
last_of last ((k, now) ∷ events) = last_of now events

-- How many of the instants lie in the window that ends at `now`.
abbrev pub within : ℕ → ℕ → List ℕ → ℕ
within now window ts = length (filter (is_recent now window) ts)

-- From `last` on, the limiter's list shows the same window as the attempts that were let through.
abbrev Tracks : RateLimiter → Str → List ℕ → ℕ → Type 0
Tracks r ip past last =
    (now : ℕ)
    → last ≤ now
    → filter (is_recent now r.window) (attempts_of ip r.attempts)
      ≡ filter (is_recent now r.window) past

later_window :
    (now later window : ℕ) (ts : List ℕ)
    → now ≤ later
    → filter (is_recent later window) (filter (is_recent now window) ts)
      ≡ filter (is_recent later window) ts
later_window now later window ts h =
    filter-filter (is_recent later window) (is_recent now window) ts (λ t p. ground arith)

within_later :
    (now later window : ℕ) (ts : List ℕ)
    → now ≤ later
    → within later window ts ≤ within now window ts
unfolding filter
within_later now later window [] h = omega arith
within_later now later window (t ∷ ts) h = ground (arith, within_later now later window ts h)

within-append :
    (now window : ℕ) (ts : List ℕ) (t : ℕ)
    → within now window (ts ++ t ∷ []) ≤ within now window ts + 1
unfolding filter
within-append now window ts t = rw filter-append (rw length-append (ground arith))

module _ (r : RateLimiter) (k : Str) (now : ℕ) where
  abbrev pub recent : List ℕ
  recent = filter (is_recent now r.window) (attempts_of k r.attempts)

  pub allow-eq : allow r k now ≡ (
      if leb r.max (length recent)
      then (record r { attempts = set_attempts k recent r.attempts }, false)
      else (record r { attempts = set_attempts k (recent ++ now ∷ []) r.attempts }, true))
  unfolding allow
  allow-eq = rw recent_from-filter refl

record Follows (r : RateLimiter) (ip : Str) (past : List ℕ) (last : ℕ) : Type 0 where
  tracks : Tracks r ip past last
  bounded : within last r.window past ≤ r.max

module _ (r : RateLimiter) (ip : Str) (past : List ℕ) (last now : ℕ) (order : last ≤ now)
    (f : Follows r ip past last) where
  abbrev kept : List ℕ
  kept = recent r ip now

  kept_later :
      (later : ℕ)
      → now ≤ later
      → filter (is_recent later r.window) kept ≡ filter (is_recent later r.window) past
  kept_later later h =
      later_window now later r.window (attempts_of ip r.attempts) h ∙ f.tracks later (omega arith)

  set_self : (ts : List ℕ) → attempts_of ip (set_attempts ip ts r.attempts) ≡ ts
  set_self ts = rw (attempts_of-set_attempts, str_eq_refl) refl

  still_bounded : within now r.window past ≤ r.max
  still_bounded = omega (arith, within_later last now r.window past order, f.bounded)

  blocked-Follows : Follows (record r { attempts = set_attempts ip kept r.attempts }) ip past now
  blocked-Follows = record {
    tracks = λ later h. rw set_self (kept_later later h);
    bounded = still_bounded;
  }

  through-Follows :
      leb r.max (length kept) ≡ false
      → Follows
          (record r { attempts = set_attempts ip (kept ++ now ∷ []) r.attempts })
          ip
          (past ++ now ∷ [])
          now
  through-Follows room = record {
    tracks = λ later h. rw set_self (
        simp filter-append
          (ap (λ ts. ts ++ filter (is_recent later r.window) (now ∷ [])) (kept_later later h)));
    bounded = ground (arith, within-append now r.window past now, ap length (f.tracks now order));
  }

  other-Follows :
      (k : Str) (ts : List ℕ)
      → str_eq k ip ≡ false
      → Follows (record r { attempts = set_attempts k ts r.attempts }) ip past now
  other-Follows k ts other = record {
    tracks = λ later h.
        rw (attempts_of-set_attempts k ip ts r.attempts, other) (f.tracks later (omega arith));
    bounded = still_bounded;
  }

allow-Follows :
    (r : RateLimiter) (ip k : Str) (past : List ℕ) (last now : ℕ)
    → last ≤ now
    → Follows r ip past last
    → Follows
        (allow r k now).0
        ip
        (if str_eq k ip && (allow r k now).1 then past ++ now ∷ [] else past)
        now
allow-Follows r ip k past last now order f = elim (Bool-cases (str_eq k ip)) [
  | inl same ↦ elim (Bool-cases (leb r.max (length (kept r ip past last now order f)))) [
    | inl full ↦
        rw ((str_eq_iff k ip).0 same, allow-eq, full, str_eq_refl)
          (blocked-Follows r ip past last now order f)
    | inr room ↦
        rw ((str_eq_iff k ip).0 same, allow-eq, room, str_eq_refl)
          (through-Follows r ip past last now order f room)
  ]
  | inr other ↦ elim (Bool-cases (leb r.max (length (recent r k now)))) [
    | inl full ↦ rw (other, allow-eq, full) (other-Follows r ip past last now order f k _ other)
    | inr room ↦ rw (other, allow-eq, room) (other-Follows r ip past last now order f k _ other)
  ]
]

max-allow : (r : RateLimiter) (k : Str) (now : ℕ) → (allow r k now).0.max ≡ r.max
unfolding allow
max-allow r k now = ground arith

window-allow : (r : RateLimiter) (k : Str) (now : ℕ) → (allow r k now).0.window ≡ r.window
unfolding allow
window-allow r k now = ground arith

-- What a history keeps of a limiter.
abbrev Kept : RateLimiter → Str → ℕ → RateLimiter × List ℕ → Type 0
Kept r ip last (s, past) = (s.max ≡ r.max) × (s.window ≡ r.window) × Follows s ip past last

run-Kept :
    (r : RateLimiter) (ip : Str) (past : List ℕ) (last : ℕ) (events : List (Str × ℕ))
    → IsMonotone last events
    → Follows r ip past last
    → Kept r ip (last_of last events) (run r ip past events)
unfolding run
run-Kept r ip past last [] h f = (refl, refl, f)
run-Kept r ip past last ((k, now) ∷ events) (order, h) f =
    let (m, w, g) =
      run-Kept (allow r k now).0 ip
        (if str_eq k ip && (allow r k now).1 then past ++ now ∷ [] else past) now events h
        (allow-Follows r ip k past last now order f) in
    (m ∙ max-allow r k now, w ∙ window-allow r k now, g)

-- NewRateLimiter
unfoldable pub new_rate_limiter : ℕ → ℕ → RateLimiter
new_rate_limiter max window = record { attempts = []; window = window; max = max }

-- A history of attempts on a new limiter.
abbrev pub history : ℕ → ℕ → Str → List (Str × ℕ) → RateLimiter × List ℕ
history max window ip events = run (new_rate_limiter max window) ip [] events

module _ (max window : ℕ) (ip : Str) (events : List (Str × ℕ)) (order : IsMonotone 0 events) where
  abbrev outcome : RateLimiter × List ℕ
  outcome = history max window ip events

  new_Kept : Kept (new_rate_limiter max window) ip (last_of 0 events) outcome
  unfolding new_rate_limiter filter attempts_of
  new_Kept =
      run-Kept (new_rate_limiter max window) ip [] 0 events order
        (record { tracks = λ now h. refl; bounded = omega arith })

  -- After any calls of Allow, from any addresses, that follow one another without overlap at
  -- instants that do not go back, at most `max` of the attempts that were let through for one
  -- address lie in any window that ends at or after the last attempt.
  pub run_bounded :
      (now : ℕ) → last_of 0 events ≤ now → within now window (history max window ip events).1 ≤ max
  unfolding new_rate_limiter
  run_bounded now h =
      let (m, w, f) = new_Kept in
      omega (
        arith,
        within_later (last_of 0 events) now window (history max window ip events).1 h,
        rw (m, w) at f.bounded,
      )

  -- After any calls of Allow that follow one another without overlap, at instants that do not go
  -- back, the next call lets an address through exactly when fewer than `max` of its earlier
  -- attempts that were let through lie in the window that ends with it.
  pub allow_iff :
      (now : ℕ)
      → last_of 0 events ≤ now
      → ((allow (history max window ip events).0 ip now).1 ≡ true)
        ↔ (within now window (history max window ip events).1 < max)
  unfolding new_rate_limiter
  allow_iff now h =
      let (m, w, f) = new_Kept in rw (allow-eq, m, w) (ground (arith, ap length (f.tracks now h)))
