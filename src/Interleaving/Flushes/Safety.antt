-- ===== src/Interleaving/Flushes/Safety.antt =====
-- Calls of Flush of internal/scheduler/scheduler.go in any interleaving, with one another and with
-- other goroutines: saved requests and the consistency of the tables.
use ooblivion.Shared.{ℤ, codes, str_eq, true, not, [], ◌≡◌, refl, Member}
use ooblivion.Shared.Select.{Member-filter}
use ooblivion.Models.{Request}
use ooblivion.Db.{World, Tables, delete_requests}
use ooblivion.Db.Audit.{insert_audit}
use ooblivion.Db.Keeping.{Keeps-exec}
use ooblivion.Scheduler.{Clock, delete_logs}
use ooblivion.Scheduler.Settings.{write_setting}
use ooblivion.Admin.Rules.{RulesLib}
use ooblivion.Consistency.{IsConsistent}
use ooblivion.Consistency.Logs.{Allows-delete_logs, Allows-insert_audit, Keeps-write_other}
use ooblivion.Consistency.Statements.{total, unguarded}
use ooblivion.Consistency.Requests.{Allows-delete_requests}
use ooblivion.Interleaving.Flushes.{System, Reach}
use ooblivion.Interleaving.Flushes.Keeping.{IsKeptByFlush, Reach-Kept}

abbrev pub Stored : Request → Tables → Type 0
Stored r t = Member r t.requests

module _ (r : Request) (saved : r.saved ≡ true) where
  Stored-IsKeptByFlush : IsKeptByFlush (Stored r)
  unfolding delete_logs delete_requests write_setting insert_audit
  Stored-IsKeptByFlush = record {
    logs = λ selected spares. Keeps-exec _ (total _ _ (λ t h. h));
    rows = λ selected spares. Keeps-exec _ (
        unguarded _ _ _ (λ t free h.
          Member-filter (λ x. not (selected x)) r t.requests h (rw (spares r saved) refl)));
    setting = λ text. Keeps-exec _ (total _ _ (λ t h. h));
    audit = λ action detail ip at. Keeps-exec _ (total _ _ (λ t h. h));
  }

IsConsistent-IsKeptByFlush : (c : RulesLib) → IsKeptByFlush (IsConsistent c)
unfolding str_eq
IsConsistent-IsKeptByFlush c = record {
  logs = λ selected spares. Keeps-exec _ (Allows-delete_logs selected);
  rows = λ selected spares. Keeps-exec _ (Allows-delete_requests selected);
  setting = λ text. Keeps-write_other (codes "last_flush_at") text refl;
  audit = λ action detail ip at. Keeps-exec _ (Allows-insert_audit action detail ip at);
}

module _ (clock : Clock) (default_days : ℤ) where
  -- A saved request that the other goroutines leave as it is stays as it is between any two steps
  -- of any calls of Flush, manual or automatic, however they and the other goroutines are
  -- interleaved and whatever statements fail.
  pub Reach-saved :
      {Other : World → World → Type 0} {s : System} (r : Request) (w : World)
      → ((u v : World) → Other u v → Stored r u.db → Stored r v.db)
      → r.saved ≡ true
      → Stored r w.db
      → Reach clock default_days Other (record { calls = []; world = w }) s
      → Stored r s.world.db
  Reach-saved r w fair saved stored reached =
      (Reach-Kept (Stored-IsKeptByFlush r saved) clock default_days fair (tt, stored) reached).1

  -- However the steps of calls of Flush are interleaved with one another and with other goroutines,
  -- and whatever statements fail, the tables are consistent between any two steps, if each step of
  -- the others keeps them so.
  pub Reach-IsConsistent :
      (c : RulesLib) {Other : World → World → Type 0} {s : System} (w : World)
      → ((u v : World) → Other u v → IsConsistent c u.db → IsConsistent c v.db)
      → IsConsistent c w.db
      → Reach clock default_days Other (record { calls = []; world = w }) s
      → IsConsistent c s.world.db
  Reach-IsConsistent c w fair sound reached =
      (Reach-Kept (IsConsistent-IsKeptByFlush c) clock default_days fair (tt, sound) reached).1
