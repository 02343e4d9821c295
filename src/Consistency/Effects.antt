-- ===== src/Consistency/Effects.antt =====
-- The parts that several handlers share, and the flush of internal/scheduler, keep the tables
-- consistent, whichever of their statements fail.
use ooblivion.Shared.{
  ℕ, ℤ, List, [], ◌∷◌, Str, codes, str_eq, if◌then◌else◌, refl, Bool, true, false,
}
use ooblivion.Exec.{ok, modify}
use ooblivion.Db.{Tables, World}
use ooblivion.Models.{Request}
use ooblivion.Auth.Denylist.{denylist_prune}
use ooblivion.Db.Keeping.{Keeps, Keeps-modify}
use ooblivion.Scheduler.{
  Clock, flush, flush_manual, flush_auto, flush_expired, flush_rows, retention_days,
  auto_flush_enabled, released, run_once, Signal, tick, cancelled, start,
}
use ooblivion.Admin.Rules.{RulesLib}
use ooblivion.Admin.Keeping.{read_rules}
use ooblivion.Consistency.{IsConsistent}
use ooblivion.Consistency.Requests.{request_rules}
use ooblivion.Consistency.Rules.{
  console_rules, Allows-insert_scope, Allows-update_scope, Allows-insert_rule, Allows-update_rule,
}
use ooblivion.Consistency.Logs.{consistency_rules, Keeps-write_other}

-- A flush keeps what its branches keep: the lock is no part of the tables.
pub Keeps-flush_of :
    {P : Tables → Type 0} (clock : Clock) (default_days : ℤ) (manual : Bool) (ip : Str) (now : ℕ)
    → Keeps P (if manual then flush_manual clock ip now else flush_auto clock default_days ip now)
    → Keeps P (flush clock default_days manual ip now)
unfolding flush
Keeps-flush_of {P} clock default_days manual ip now kept = record {
  at = λ w h. locked w.flushing w h;
}
  where
    locked :
        (b : Bool) (w : World)
        → P w.db
        → P
            (if b
              then (ok 0, w)
              else released clock (
                  (if manual
                      then flush_manual clock ip now
                      else flush_auto clock default_days ip now)
                    (record w { flushing = true }))).1.db
    locked true w h = h
    locked false w h = kept.at (record w { flushing = true }) h

module _ {c : RulesLib} where
  Keeps-flushed :
      {E : Type 0} (text : Str)
      → Keeps (IsConsistent c) (modify {S = World} {E = E} (λ w. record w { last_flush_at = text }))
  Keeps-flushed text = Keeps-modify _ (λ w h. h)

  pub ruleset handler_rules = (read_rules, request_rules, console_rules, consistency_rules)

  Keeps-flush_rows :
      (clock : Clock) (action ip : Str) (now : ℕ) (selected : Request → Bool)
      → Keeps (IsConsistent c) (flush_rows clock action ip now selected)
  unfolding flush_rows str_eq
  Keeps-flush_rows clock action ip now selected =
      search
        (
          handler_rules,
          Keeps-flushed,
          Keeps-write_other (codes "last_flush_at") (clock.stamp now) refl,
        )
        depth 16

  Keeps-chosen :
      (clock : Clock) (default_days : ℤ) (manual : Bool) (ip : Str) (now : ℕ)
      → Keeps
          (IsConsistent c)
          (if manual then flush_manual clock ip now else flush_auto clock default_days ip now)
  unfolding flush_manual flush_auto flush_expired retention_days auto_flush_enabled
  Keeps-chosen clock default_days manual ip now = search (handler_rules, Keeps-flush_rows) depth 16

  pub Keeps-flush :
      (clock : Clock) (default_days : ℤ) (manual : Bool) (ip : Str) (now : ℕ)
      → Keeps (IsConsistent c) (flush clock default_days manual ip now)
  Keeps-flush clock default_days manual ip now =
      Keeps-flush_of clock default_days manual ip now
        (Keeps-chosen clock default_days manual ip now)

  pub Keeps-run_once :
      (clock : Clock) (default_days : ℤ) (now : ℕ)
      → Keeps (IsConsistent c) (run_once clock default_days now)
  unfolding run_once denylist_prune
  Keeps-run_once clock default_days now = search (handler_rules, Keeps-flush) depth 16

  -- The goroutine of Start keeps the tables consistent, whatever its statements give.
  pub Keeps-start :
      (clock : Clock) (default_days : ℤ) (signals : List Signal)
      → Keeps (IsConsistent c) (start clock default_days signals)
  unfolding start
  Keeps-start clock default_days [] = search handler_rules
  Keeps-start clock default_days (cancelled ∷ signals) = search handler_rules
  Keeps-start clock default_days (tick now ∷ signals) =
      search (
        handler_rules,
        Keeps-run_once clock default_days now,
        Keeps-start clock default_days signals,
      )
