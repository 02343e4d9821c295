-- ===== src/Interleaving/Flushes/Locking.antt =====
-- The lock of Flush of internal/scheduler/scheduler.go under any interleaving.
use ooblivion.Shared.{
  ℕ, zero, suc, ◌+◌, ◌≤◌, ℤ, Str, Bool, true, false, Bool-cases, inl, inr, Option, List, [], ◌∷◌,
  ◌≡◌, ◌↔◌, refl, arith, if◌then◌else◌,
}
use ooblivion.Db.{World, Error, Tables, exec, query_row, answered}
use ooblivion.Scheduler.{Clock, retention_days, auto_flush_enabled, delete_logs}
use ooblivion.Models.{Request}
use ooblivion.Scheduler.Settings.{read_setting, write_setting}
use ooblivion.Interleaving.{finished, step, AllSteps, AllSteps-if, AllSteps-resumed}
use ooblivion.Interleaving.Flushes.{
  Call, delete_steps, expiring, flushing_thread, Flusher, waiting, inside, gone, enter, advance,
  System, turn, Step, called, turned_at, elsewhere, IsSteady, AllSteady, Reach, here, next,
}

-- the lock stays as it is
abbrev pub SameLock : World → World → Type 0
SameLock w w' = w'.flushing ≡ w.flushing

exec-flushing :
    {A : Type 0} (statement : Tables → Option (A × Tables)) (w : World)
    → SameLock w (exec statement w).1
unfolding exec answered
exec-flushing statement w = ground arith

query_row-flushing :
    {A : Type 0} (select : Tables → Option A) (w : World) → SameLock w (query_row select w).1
unfolding query_row answered
query_row-flushing select w = ground arith

abbrev pub within : Flusher → ℕ
within (waiting call) = 0
within (inside t) = 1
within (gone r) = 0

abbrev pub holders : List Flusher → ℕ
holders [] = 0
holders (f ∷ fs) = within f + holders fs

abbrev pub taken : World → ℕ
taken w = if w.flushing then 1 else 0

module _ (clock : Clock) (default_days : ℤ) where
  delete_steps-SameLock :
      (action : Str) (call : Call) (selected : Request → Bool)
      → AllSteps SameLock (delete_steps clock action call selected)
  unfolding delete_steps write_setting
  delete_steps-SameLock action call selected = (
    exec-flushing (delete_logs selected),
    λ _. (
      exec-flushing _,
      λ _. ((λ w. refl), λ _. (exec-flushing _, λ _. (exec-flushing _, λ _. tt))),
    ),
  )

  retention_days-SameLock : (w : World) → SameLock w (retention_days {E = Error} default_days w).1
  unfolding retention_days read_setting
  retention_days-SameLock w = query_row-flushing _ w

  enabled-SameLock : (w : World) → SameLock w (auto_flush_enabled {E = Error} w).1
  unfolding auto_flush_enabled read_setting
  enabled-SameLock w = query_row-flushing _ w

  expiring-SameLock : (call : Call) → AllSteps SameLock (expiring clock default_days call)
  unfolding expiring
  expiring-SameLock call = (retention_days-SameLock, λ _. delete_steps-SameLock _ call _)

  pub flushing_thread-SameLock :
      (call : Call) → AllSteps SameLock (flushing_thread clock default_days call)
  unfolding flushing_thread
  flushing_thread-SameLock call =
      AllSteps-if SameLock call.manual _ _ (delete_steps-SameLock _ call _)
        (enabled-SameLock, λ enabled. AllSteps-if SameLock enabled _ _ (expiring-SameLock call) tt)

  -- A step of one call changes the lock by what it changes its own place.
  advance-taken :
      (f : Flusher) (w : World)
      → IsSteady SameLock f
      → within f ≤ taken w
      → let out = advance clock default_days f w in
        IsSteady SameLock out.0 × (within out.0 + taken w ≡ within f + taken out.1)
  unfolding advance enter
  advance-taken (waiting call) w h le = elim (Bool-cases w.flushing) [
    | inl held ↦ rw held (tt, refl)
    | inr free ↦ rw free (flushing_thread-SameLock call, refl)
  ]
  advance-taken (inside (finished r)) w h le = (tt, ground arith)
  advance-taken (inside (step m k)) w h le =
      (AllSteps-resumed SameLock k (m w).0 h.1, ground (arith, h.0 w))
  advance-taken (gone r) w h le = (tt, refl)

  turn-taken :
      (i : ℕ) (fs : List Flusher) (w : World)
      → AllSteady SameLock fs
      → holders fs ≤ taken w
      → let out = turn clock default_days i fs w in
        AllSteady SameLock out.0 × (holders out.0 + taken w ≡ holders fs + taken out.1)
  unfolding turn
  turn-taken i [] w h le = (tt, refl)
  turn-taken zero (f ∷ fs) w h le =
      let (sane, moved) = advance-taken f w h.0 (omega arith) in ((sane, h.1), omega (arith, moved))
  turn-taken (suc i) (f ∷ fs) w h le =
      let (sane, moved) = turn-taken i fs w h.1 (omega arith) in ((h.0, sane), omega (arith, moved))

  -- The lock is taken exactly when one call is inside, and otherwise none is.
  record IsLocked (s : System) : Type 0 where
    sane : AllSteady SameLock s.calls
    exact : holders s.calls ≡ taken s.world

  Step-IsLocked :
      {Other : World → World → Type 0} {s t : System}
      → ((w w' : World) → Other w w' → SameLock w w')
      → Step clock default_days Other s t
      → IsLocked s
      → IsLocked t
  Step-IsLocked polite (called s call) h = record {
    sane = (tt, h.sane);
    exact = omega (arith, h.exact);
  }
  Step-IsLocked polite (turned_at s i) h =
      let (sane, moved) = turn-taken i s.calls s.world h.sane (omega (arith, h.exact)) in
      record { sane = sane; exact = omega (arith, moved, h.exact) }
  Step-IsLocked polite (elsewhere s w other) h = record {
    sane = h.sane;
    exact = rw (polite s.world w other) h.exact;
  }

  Reach-IsLocked :
      {Other : World → World → Type 0} {s t : System}
      → ((w w' : World) → Other w w' → SameLock w w')
      → IsLocked s
      → Reach clock default_days Other s t
      → IsLocked t
  Reach-IsLocked polite h here = h
  Reach-IsLocked polite h (next r st) = Step-IsLocked polite st (Reach-IsLocked polite h r)

  -- However calls of Flush, manual or automatic, are interleaved with one another and with code
  -- that leaves the lock alone, at most one call is between the two uses of the lock, and the lock
  -- is taken exactly while one is.
  pub Reach-exclusive :
      {Other : World → World → Type 0} {s : System} (w : World)
      → ((u v : World) → Other u v → SameLock u v)
      → w.flushing ≡ false
      → Reach clock default_days Other (record { calls = []; world = w }) s
      → (holders s.calls ≤ 1) × ((holders s.calls ≡ 1) ↔ (s.world.flushing ≡ true))
  Reach-exclusive {s} w polite free r = held s.calls s.world.flushing exact
    where
      start : IsLocked (record { calls = []; world = w })
      start = record { sane = tt; exact = rw free refl }

      exact : holders s.calls ≡ taken s.world
      exact = (Reach-IsLocked polite start r).exact

      held :
          (fs : List Flusher) (b : Bool)
          → holders fs ≡ (if b then 1 else 0)
          → (holders fs ≤ 1) × ((holders fs ≡ 1) ↔ (b ≡ true))
      held fs b e = ground arith
