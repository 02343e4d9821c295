-- ===== src/Tests/Scheduler.antt =====
-- internal/scheduler/scheduler.go.
use ooblivion.Shared.{
  ◌≡◌, ℕ, ltb, inl, refl, arith, pos, codes, str_eq, str_lt, atoi, Member, true, false, [], ◌∷◌,
  if◌then◌else◌,
}
use ooblivion.Exec.{ok}
use ooblivion.Db.{World}
use ooblivion.Capture.Saving.{healthy}
use ooblivion.Scheduler.Settings.{setting}
use ooblivion.Scheduler.{unsaved, unsaved_before, flush, start, tick}
use ooblivion.Scheduler.Flushing.{count, flushed}
use ooblivion.Scheduler.Retention.{
  finished, boundary, window, switched_off, flush_manual_lem, flush_auto_lem, flush_auto-recent,
}
use ooblivion.Auth.Denylist.{is_denied}
use ooblivion.Scheduler.Pruning.{start-is_denied}
use ooblivion.Tests.Samples.{clock, clock-IsOrdered, old_request, world}

flush_manual_lem_example : flush clock (pos 30) true (codes "ip") 9 (healthy world) ≡ (
  ok (count clock (codes "flush_manual") (codes "ip") 9 unsaved world),
  finished (flushed clock (codes "flush_manual") (codes "ip") 9 unsaved world),
)
flush_manual_lem_example = flush_manual_lem clock (pos 30) (codes "ip") 9 world refl

flush_auto_lem_example : flush clock (pos 30) false (codes "ip") 9 (healthy world) ≡ (
    if switched_off clock (pos 30) (codes "ip") 9 world then (ok 0, finished world) else (
      ok (
          count clock
            (codes "flush_auto")
            (codes "ip")
            9
            (unsaved_before (
              boundary clock
                (pos 30)
                (codes "ip")
                9
                world
                (window clock (pos 30) (codes "ip") 9 world)))
            world),
      finished (
          flushed clock
            (codes "flush_auto")
            (codes "ip")
            9
            (unsaved_before (
              boundary clock
                (pos 30)
                (codes "ip")
                9
                world
                (window clock (pos 30) (codes "ip") 9 world)))
            world),
    ))
flush_auto_lem_example = flush_auto_lem clock (pos 30) (codes "ip") 9 world refl

window_one : window clock (pos 30) (codes "ip") 9 world ≡ pos 1
unfolding setting atoi str_eq
window_one = refl

flush_auto-recent_example :
    Member old_request (flush clock (pos 30) false (codes "ip") 9 (healthy world)).1.db.requests
flush_auto-recent_example =
    flush_auto-recent clock clock-IsOrdered (pos 30) (codes "ip") 9 world 0 5 old_request window_one
      (omega arith) (inl refl) refl (omega arith)

abbrev revoked : World
revoked = record world { db = record world.db { jwt_denylist = (codes "j", 20 ∷ []) ∷ [] } }

not_expired : (now : ℕ) → ltb 20 now ≡ false → str_lt (20 ∷ []) (clock.stamp now) ≡ false
unfolding str_lt
not_expired now h = ground (arith, h)

start-is_denied_example :
    is_denied (codes "j") (start clock (pos 30) (tick 9 ∷ tick 15 ∷ []) revoked).1.db ≡ true
start-is_denied_example =
    start-is_denied clock (pos 30) (tick 9 ∷ tick 15 ∷ []) revoked (codes "j") (20 ∷ []) (inl refl)
      (not_expired 9 refl, (not_expired 15 refl, tt))
