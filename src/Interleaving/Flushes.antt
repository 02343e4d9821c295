-- ===== src/Interleaving/Flushes.antt =====
-- Flush of internal/scheduler/scheduler.go, called by several goroutines at once: its steps, and the
-- channel `flushLock` of capacity one, which lets one call in and sends the others away.
pub mod Locking
pub mod Ending
pub mod Keeping
pub mod Safety
pub mod Refusal
pub mod Overlap
use ooblivion.Shared.{
  ℕ, zero, suc, ℤ, Str, codes, itoa_ℕ, Bool, true, false, List, [], ◌∷◌, ◌++◌, ◌≡◌, refl,
  if◌then◌else◌,
}
use ooblivion.Exec.{Result, ok, err, Exec, modify}
use ooblivion.Models.{Request}
use ooblivion.Db.{World, Error, exec}
use ooblivion.Db.Audit.{insert_audit}
use ooblivion.Scheduler.Settings.{write_setting}
use ooblivion.Scheduler.{
  Clock, unsaved, unsaved_before, retention_offset, retention_days, auto_flush_enabled, delete_logs,
}
use ooblivion.Db.{delete_requests}
use ooblivion.Interleaving.{Thread, finished, step, ◌>>=◌, ◌>>◌, resumed, AllSteps}

-- a call: manual, the address for the audit log, and its time
pub record Call : Type 0 where
  pub manual : Bool
  pub ip : Str
  pub now : ℕ

module _ (clock : Clock) where
  -- the statements behind the choice of the rows
  unfoldable pub delete_steps : Str → Call → (Request → Bool) → Thread Error ℕ
  delete_steps action call selected = do
    exec (delete_logs selected)
    count ← exec (delete_requests selected)
    modify (λ w. record w { last_flush_at = clock.stamp call.now })
    write_setting (codes "last_flush_at") (clock.stamp call.now)
    exec (insert_audit action (itoa_ℕ count ++ codes " requests") call.ip (clock.stamp call.now))
    finished (ok count)

module _ (clock : Clock) (default_days : ℤ) where
  unfoldable pub expiring : Call → Thread Error ℕ
  expiring call = do
    days ← retention_days default_days
    delete_steps clock (codes "flush_auto") call
        (unsaved_before (clock.stamp_add call.now (retention_offset days)))

  -- Flush between the two uses of the lock
  unfoldable pub flushing_thread : Call → Thread Error ℕ
  flushing_thread call =
      if call.manual
      then delete_steps clock (codes "flush_manual") call unsaved
      else do enabled ← auto_flush_enabled; if enabled then expiring call else finished (ok 0)

-- one call: before the lock, with the lock, and gone
pub data Flusher : Type 1 where
  waiting : Call → Flusher
  inside : Thread Error ℕ → Flusher
  gone : Result Error ℕ → Flusher

module _ (clock : Clock) (default_days : ℤ) where
  -- the `select` on the channel
  unfoldable pub enter : Call → World → Flusher × World
  unfolding flushing_thread
  enter call w =
      if w.flushing
      then (gone (ok 0), w)
      else (inside (flushing_thread clock default_days call), record w { flushing = true })

  -- the next step of a call; the deferred receive is the last
  unfoldable pub advance : Flusher → World → Flusher × World
  unfolding enter
  advance (waiting call) w = enter call w
  advance (inside (finished r)) w = (gone r, record w { flushing = false })
  advance (inside (step m k)) w = let (r, w') = m w in (inside (resumed k r), w')
  advance (gone r) w = (gone r, w)

  -- the steps of one call, before each of which others change the world
  unfoldable pub among : List (World → World) → Flusher → World → Flusher × World
  unfolding advance
  among [] f w = (f, w)
  among (g ∷ gs) f w = let (f', w') = advance f (g w) in among gs f' w'

-- the steps that a call which is inside has left are of the given kind
abbrev pub IsSteady : (World → World → Type 0) → Flusher → Type 0
IsSteady I (waiting call) = Unit {0}
IsSteady I (inside t) = AllSteps I t
IsSteady I (gone r) = Unit {0}

abbrev pub AllSteady : (World → World → Type 0) → List Flusher → Type 0
AllSteady I [] = Unit {0}
AllSteady I (f ∷ fs) = IsSteady I f × AllSteady I fs

-- all calls so far, with the world
pub record System : Type 1 where
  pub calls : List Flusher
  pub world : World

module _ (clock : Clock) (default_days : ℤ) where
  -- the call at a place makes its next step
  unfoldable pub turn : ℕ → List Flusher → World → List Flusher × World
  unfolding advance
  turn i [] w = ([], w)
  turn zero (f ∷ fs) w = let (f', w') = advance clock default_days f w in (f' ∷ fs, w')
  turn (suc i) (f ∷ fs) w = let (fs', w') = turn i fs w in (f ∷ fs', w')

  abbrev pub turned : List Flusher × World → System
  turned (fs, w) = record { calls = fs; world = w }

  -- `Other` is what the other goroutines do in one step.
  pub data Step (Other : World → World → Type 0) : System → System → Type 1 where
    called : (s : System) (call : Call) → Step Other s (record s { calls = waiting call ∷ s.calls })
    turned_at : (s : System) (i : ℕ) → Step Other s (turned (turn i s.calls s.world))
    elsewhere : (s : System) (w : World) → Other s.world w → Step Other s (record s { world = w })

  pub data Reach (Other : World → World → Type 0) (s : System) : System → Type 1 where
    here : Reach Other s s
    next : {t u : System} → Reach Other s t → Step Other t u → Reach Other s u
