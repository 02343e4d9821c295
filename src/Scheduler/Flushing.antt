-- ===== src/Scheduler/Flushing.antt =====
-- What Flush of internal/scheduler/scheduler.go deletes and keeps.
use ooblivion.Shared.{
  ℕ, suc, Str, codes, itoa_ℕ, Bool, false, not, some, List, [], ◌∷◌, ◌++◌, ◌≡◌, ◌≢◌, ◌⊎◌, inl, inr,
  refl, arith, any, filter, length, Member, Bool-cases,
}
use ooblivion.Shared.Select.{any-eq-false, any_of_Member, filter-Member}
use ooblivion.Exec.{ok, err}
use ooblivion.Models.{Request, NotificationLog}
use ooblivion.Db.{
  Tables, World, constraint, exec, refers_to, logged, delete_requests, faulty, answered,
}
use ooblivion.Db.Audit.{insert_audit, audit_entry}
use ooblivion.Scheduler.Settings.{write_setting, put_setting}
use ooblivion.Capture.Saving.{healthy}
use ooblivion.Scheduler.{Clock, delete_logs, flush_rows}

-- A log row that refers to one of the rows that are to be deleted.
abbrev pub concerns : (Request → Bool) → List Request → NotificationLog → Bool
concerns selected requests l =
    any (λ (r : Request). refers_to l.request_id r.id) (filter selected requests)

abbrev pub kept_logs : (Request → Bool) → Tables → List NotificationLog
kept_logs selected t = filter (λ l. not (concerns selected t.requests l)) t.notification_log

-- After its log rows have gone, no row to be deleted is referred to.
unreferenced :
    (selected : Request → Bool) (t : Tables) (r : Request)
    → Member r (filter selected t.requests)
    → logged (record t { notification_log = kept_logs selected t }) r.id ≡ false
unreferenced selected t r m = any-eq-false _ (kept_logs selected t) (λ l n.
    elim (Bool-cases (refers_to l.request_id r.id)) [
      | inl hit ↦ ground (
        arith,
        any_of_Member (λ (x : Request). refers_to l.request_id x.id) r _ m hit,
        filter-Member (λ k. not (concerns selected t.requests k)) l t.notification_log n,
      )
      | inr miss ↦ miss
    ])

abbrev pub remaining : (Request → Bool) → Tables → List Request
remaining selected t = filter (λ r. not (selected r)) t.requests

abbrev pub without_rows : (Request → Bool) → Tables → Tables
without_rows selected t = record t {
  requests = remaining selected t;
  notification_log = kept_logs selected t;
}

-- The deletion of the rows follows that of their log rows, so no foreign key stops it.
delete_requests-delete_logs :
    (selected : Request → Bool) (t : Tables)
    → delete_requests selected (record t { notification_log = kept_logs selected t })
      ≡ some (length (filter selected t.requests), without_rows selected t)
unfolding delete_requests
delete_requests-delete_logs selected t = ground (
  arith,
  any-eq-false (λ (r : Request). logged (record t { notification_log = kept_logs selected t }) r.id)
      (filter selected t.requests) (unreferenced selected t),
)

module _ (clock : Clock) (action ip : Str) (now : ℕ) (selected : Request → Bool) (w : World) where
  abbrev pub count : ℕ
  count = length (filter selected w.db.requests)

  -- The tables after a flush of the selected rows.
  abbrev pub flushed_db : Tables
  flushed_db = record (without_rows selected w.db) {
    settings = put_setting (codes "last_flush_at") (clock.stamp now) w.db.settings;
    audit_log =
        w.db.audit_log
        ++ audit_entry (suc w.db.last_audit) action (itoa_ℕ count ++ codes " requests") ip
            (clock.stamp now)
          ∷ [];
    last_audit = suc w.db.last_audit;
  }

  abbrev pub flushed : World
  flushed = record w { db = flushed_db; last_flush_at = clock.stamp now }

  pub flush_rows-healthy :
      flush_rows clock action ip now selected (healthy w) ≡ (ok count, healthy flushed)
  unfolding flush_rows exec delete_logs write_setting insert_audit faulty answered
  flush_rows-healthy = rw (delete_requests-delete_logs) refl

  -- Whatever statement fails, the rows that are not selected stay, and no foreign key is violated.
  pub flush_rows_keeps :
      let out = flush_rows clock action ip now selected w in
      ((out.1.db.requests ≡ w.db.requests) ⊎ (out.1.db.requests ≡ remaining selected w.db))
      × (out.0 ≢ err constraint)
  unfolding flush_rows exec delete_logs write_setting insert_audit answered
  flush_rows_keeps = ground (arith, delete_requests-delete_logs selected w.db)
