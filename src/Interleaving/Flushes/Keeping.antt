-- ===== src/Interleaving/Flushes/Keeping.antt =====
-- What interleaved calls of Flush of internal/scheduler/scheduler.go leave as it is: an invariant of
-- the tables that each statement keeps holds between any two steps.
use ooblivion.Shared.{
  ℕ, zero, suc, ℤ, Str, codes, Bool, true, false, List, [], ◌∷◌, ◌≡◌, refl, if◌then◌else◌,
}
use ooblivion.Exec.{ok}
use ooblivion.Models.{Request}
use ooblivion.Db.{World, Error, Tables, exec, delete_requests}
use ooblivion.Db.Audit.{insert_audit}
use ooblivion.Db.Keeping.{Keeps, Keeps-bind, Keeps-pure}
use ooblivion.Scheduler.{Clock, retention_days, auto_flush_enabled, delete_logs}
use ooblivion.Scheduler.Settings.{write_setting}
use ooblivion.Admin.Keeping.{read_rules}
use ooblivion.Interleaving.{finished, step, AllSteps, AllSteps-if, AllSteps-resumed}
use ooblivion.Interleaving.Flushes.{
  Call, delete_steps, expiring, flushing_thread, Flusher, waiting, inside, gone, enter, advance,
  System, turn, called, turned_at, elsewhere, IsSteady, AllSteady, Reach, here, next,
}

-- the invariant is handed on
abbrev pub Safe : (Tables → Type 0) → World → World → Type 0
Safe P w w' = P w.db → P w'.db

-- the two choices of rows spare what is saved
abbrev pub SparesSaved : (Request → Bool) → Type 0
SparesSaved selected = (r : Request) → r.saved ≡ true → selected r ≡ false

-- Each statement of a flush keeps the invariant.
pub record IsKeptByFlush (P : Tables → Type 0) : Type 0 where
  pub logs :
      (selected : Request → Bool) → SparesSaved selected → Keeps P (exec (delete_logs selected))
  pub rows :
      (selected : Request → Bool) → SparesSaved selected → Keeps P (exec (delete_requests selected))
  pub setting : (text : Str) → Keeps P (write_setting (codes "last_flush_at") text)
  pub audit : (action detail ip at : Str) → Keeps P (exec (insert_audit action detail ip at))

module _ {P : Tables → Type 0} (kept : IsKeptByFlush P) (clock : Clock) (default_days : ℤ) where
  delete_steps-Safe :
      (action : Str) (call : Call) (selected : Request → Bool)
      → SparesSaved selected
      → AllSteps (Safe P) (delete_steps clock action call selected)
  unfolding delete_steps
  delete_steps-Safe action call selected spares = (
    (kept.logs selected spares).at,
    λ _. (
      (kept.rows selected spares).at,
      λ count. (
        (λ w h. h),
        λ _. ((kept.setting (clock.stamp call.now)).at, λ _. ((kept.audit _ _ _ _).at, λ _. tt)),
      ),
    ),
  )

  days-Keeps : Keeps P (retention_days {E = Error} default_days)
  unfolding retention_days
  days-Keeps = search (read_rules, Keeps-bind, Keeps-pure)

  enabled-Keeps : Keeps P (auto_flush_enabled {E = Error})
  unfolding auto_flush_enabled
  enabled-Keeps = search (read_rules, Keeps-bind, Keeps-pure)

  pub flushing_thread-Safe :
      (call : Call) → AllSteps (Safe P) (flushing_thread clock default_days call)
  unfolding flushing_thread expiring
  flushing_thread-Safe call =
      AllSteps-if (Safe P) call.manual _ _ (delete_steps-Safe _ call _ (λ r saved. rw saved refl)) (
        enabled-Keeps.at,
        λ enabled.
            AllSteps-if (Safe P) enabled _ _
              (days-Keeps.at, λ days. delete_steps-Safe _ call _ (λ r saved. rw saved refl)) tt,
      )

  abbrev Kept : List Flusher → World → Type 0
  Kept fs w = AllSteady (Safe P) fs × P w.db

  advance-Kept :
      (f : Flusher) (w : World)
      → IsSteady (Safe P) f
      → P w.db
      → let out = advance clock default_days f w in IsSteady (Safe P) out.0 × P out.1.db
  unfolding advance enter
  advance-Kept (waiting call) w h holds = entered w.flushing
    where
      entered :
          (b : Bool)
          → let out : Flusher × World = if b then (gone (ok 0), w) else (
            inside (flushing_thread clock default_days call),
            record w { flushing = true },
          ) in
            IsSteady (Safe P) out.0 × P out.1.db
      entered true = (tt, holds)
      entered false = (flushing_thread-Safe call, holds)
  advance-Kept (inside (finished r)) w h holds = (tt, holds)
  advance-Kept (inside (step m k)) w h holds =
      (AllSteps-resumed (Safe P) k (m w).0 h.1, h.0 w holds)
  advance-Kept (gone r) w h holds = (tt, holds)

  turn-Kept :
      (i : ℕ) (fs : List Flusher) (w : World)
      → Kept fs w
      → let out = turn clock default_days i fs w in Kept out.0 out.1
  unfolding turn
  turn-Kept i [] w h = h
  turn-Kept zero (f ∷ fs) w h =
      let (steady, holds) = advance-Kept f w h.0.0 h.1 in ((steady, h.0.1), holds)
  turn-Kept (suc i) (f ∷ fs) w h =
      let (steady, holds) = turn-Kept i fs w (h.0.1, h.1) in ((h.0.0, steady), holds)

  pub Reach-Kept :
      {Other : World → World → Type 0} {s t : System}
      → ((u v : World) → Other u v → P u.db → P v.db)
      → Kept s.calls s.world
      → Reach clock default_days Other s t
      → Kept t.calls t.world
  Reach-Kept fair h here = h
  Reach-Kept fair h (next r (called s call)) =
      let (steady, holds) = Reach-Kept fair h r in ((tt, steady), holds)
  Reach-Kept fair h (next r (turned_at s i)) = turn-Kept i s.calls s.world (Reach-Kept fair h r)
  Reach-Kept fair h (next r (elsewhere s w other)) =
      let (steady, holds) = Reach-Kept fair h r in (steady, fair s.world w other holds)
