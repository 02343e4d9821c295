-- ===== src/Interleaving/Flushes/Overlap.antt =====
-- Calls of Flush of internal/scheduler/scheduler.go, step by step, among the steps of the whole
-- program of cmd/ooblivion/main.go.
use ooblivion.Shared.{pos, []}
use ooblivion.Db.{World}
use ooblivion.Program
use ooblivion.Program.{Program, up}
use ooblivion.Consistency.{IsConsistent}
use ooblivion.Consistency.Runs.{Step-IsSound, Reach-IsSound}
use ooblivion.Interleaving.Flushes.{System, Reach}
use ooblivion.Interleaving.Flushes.Safety.{Reach-IsConsistent}

module _ (p : Program) where
  -- a request, a round of the worker or a run of the scheduler, each in one step
  abbrev pub Whole : World → World → Type 0
  Whole u v = Program.Step p (up u) (up v)

  -- In a process that has been reached from a new database, let calls of Flush be interleaved, one
  -- statement at a time, with one another and with requests, rounds of the worker and runs of the
  -- scheduler, each taken whole: between any two of these steps, and whatever statements fail, the
  -- tables are consistent.
  pub overlapping-IsConsistent :
      (w : World) (s : System)
      → Program.Reach p (up w)
      → Reach p.site.console.clock (pos 30) Whole (record { calls = []; world = w }) s
      → IsConsistent p.site.rules s.world.db
  overlapping-IsConsistent w s running reached =
      Reach-IsConsistent p.site.console.clock (pos 30) p.site.rules w
        (λ u v whole sound. Step-IsSound p (up u) (up v) whole sound)
        (Reach-IsSound p (up w) running) reached
