-- ===== src/Tests/Interleaving.antt =====
-- Interleaved goroutines, at inputs that meet their theorems' hypotheses.
use ooblivion.Shared.{
  none, ◌≡◌, ◌↔◌, ◌≤◌, refl, sym, subst, ap, inl, inr, arith, ℕ, pos, codes, any, map, ◌∙◌, Member,
  true, false, some, [], ◌∷◌,
}
use ooblivion.Exec.{Result, err}
use ooblivion.Db.{World, Error, constraint, exec, answered}
use ooblivion.Capture.Saving.{healthy}
use ooblivion.Telegram.{Job}
use ooblivion.Models.{NotificationRule}
use ooblivion.Telegram.Sender.{log_event, insert_log, null_int, known}
use ooblivion.Interleaving.Flushes.{
  Call, waiting, gone, among, System, called, turned_at, elsewhere, turn, turned, Reach, here, next,
}
use ooblivion.Interleaving.Flushes.Locking.{holders, Reach-exclusive}
use ooblivion.Interleaving.Flushes.Ending.{alone, among_ends}
use ooblivion.Interleaving.Flushes.Safety.{Stored, Reach-saved}
use ooblivion.Interleaving.Flushes.Refusal.{noting, idle, noted_db, among-noting}
use ooblivion.Consistency.{IsConsistent}
use ooblivion.Interleaving.Flushes.Overlap.{Whole, overlapping-IsConsistent}
use ooblivion.Program.{served, serve}
use ooblivion.Tests.Samples.{clock, world, visit, old_request, saved_request}
use ooblivion.Tests.Program.{bot, program, running, first_run}
use ooblivion.Tests.Worker.{alert}

-- the other goroutines: the worker notes failed alerts
abbrev Noted : World → World → Type 0
Noted u v = v ≡ noting bot 9 alert (codes "down") u

abbrev manual : Call
manual = record { manual = true; ip = codes "ip"; now = 9 }

abbrev two_calls : System
two_calls = record { calls = waiting manual ∷ waiting manual ∷ []; world = world }

two_calls-Reach : Reach clock (pos 30) Noted (record { calls = []; world = world }) two_calls
two_calls-Reach = next (next here (called _ manual)) (called _ manual)

abbrev one_step : ℕ → System → System
one_step i s = turned clock (pos 30) (turn clock (pos 30) i s.calls s.world)

abbrev noted : System → System
noted s = record s { world = noting bot 9 alert (codes "down") s.world }

-- The first call enters, the second is sent away, the worker notes an alert between the two
-- deletions of the first.
abbrev contended : System
contended = one_step 0 (noted (one_step 0 (one_step 1 (one_step 0 two_calls))))

contended-Reach : Reach clock (pos 30) Noted (record { calls = []; world = world }) contended
contended-Reach =
    next
      (next (next (next (next two_calls-Reach (turned_at _ 0)) (turned_at _ 1)) (turned_at _ 0))
        (elsewhere _ _ refl))
      (turned_at _ 0)

noting-flushing : (w : World) → (noting bot 9 alert (codes "down") w).flushing ≡ w.flushing
unfolding log_event insert_log exec answered
noting-flushing w = ground arith

Reach-exclusive_example :
    (holders contended.calls ≤ 1)
    × ((holders contended.calls ≡ 1) ↔ (contended.world.flushing ≡ true))
Reach-exclusive_example =
    Reach-exclusive clock (pos 30) world
      (λ u v same. ap (λ (w : World). w.flushing) same ∙ noting-flushing u) refl contended-Reach

noting-requests : (w : World) → (noting bot 9 alert (codes "down") w).db.requests ≡ w.db.requests
unfolding log_event insert_log exec answered
noting-requests w = ground arith

Reach-saved_example : Stored saved_request contended.world.db
Reach-saved_example =
    Reach-saved clock (pos 30) saved_request world
      (λ u v same m.
        subst (Member saved_request)
          (sym (ap (λ (w : World). w.db.requests) same ∙ noting-requests u)) m)
      refl (inr (inl refl)) contended-Reach

among_ends_example :
    (r : Result Error ℕ) × ((among clock (pos 30) (alone 9) (waiting manual) world).0 ≡ gone r)
unfolding alone
among_ends_example = among_ends clock (pos 30) manual (alone 9) world (omega arith)

about_old : null_int 1 ≡ some 1
unfolding null_int
about_old = refl

abbrev late : Job
late = record alert { request_id = 1 }

ruled : known (map (λ (x : NotificationRule). x.id) world.db.notification_rules) (null_int 1) ≡ true
unfolding null_int any
ruled = refl

among-noting_example :
    let failing = noting bot 9 late (codes "down") in
    among clock (pos 30) (idle ∷ idle ∷ failing ∷ idle ∷ []) (waiting manual) (healthy world) ≡ (
      gone (err constraint),
      record (healthy world) { db = noted_db bot 9 late (codes "down") world.db; flushing = false },
    )
among-noting_example =
    among-noting clock (pos 30) bot 9 late (codes "down") old_request world (inl refl) refl
      about_old ruled (codes "ip") 9 refl

-- A call enters, a request is captured, and the call goes on.
abbrev entered : System
entered = one_step 0 (record { calls = waiting manual ∷ []; world = running })

abbrev captured : World
captured = served program [] 10 none visit entered.world

abbrev overlapped : System
overlapped = one_step 0 (record entered { world = captured })

overlapped-Reach :
    Reach clock (pos 30) (Whole program) (record { calls = []; world = running }) overlapped
overlapped-Reach =
    next
      (next (next (next here (called _ manual)) (turned_at _ 0))
        (elsewhere _ _ (serve entered.world [] 10 none visit)))
      (turned_at _ 0)

overlapping-IsConsistent_example : IsConsistent program.site.rules overlapped.world.db
overlapping-IsConsistent_example =
    overlapping-IsConsistent program running overlapped first_run overlapped-Reach
