-- ===== src/Interleaving/Flushes/Refusal.antt =====
-- Flush of internal/scheduler/scheduler.go runs its two DELETE statements outside a transaction:
-- logEvent of internal/telegram/telegram.go can come between them.
use ooblivion.Shared.{
  ℕ, suc, ℤ, Str, codes, Bool, true, false, none, some, [], ◌∷◌, ◌++◌, ◌≡◌, ◌∙◌, ap, refl, arith,
  filter, map, Member, ◌==◌, itoa_ℕ,
}
use ooblivion.Shared.Select.{Member-filter, any_of_Member, any-append, Member-map}
use ooblivion.Exec.{ok, err, modify}
use ooblivion.Models.{Request, NotificationRule, NotificationLog}
use ooblivion.Telegram.{Job}
use ooblivion.Telegram.Sender.{Bot, log_event, insert_log, null_int, known}
use ooblivion.Db.{
  World, Error, constraint, Tables, exec, delete_requests, faulty, answered, logged, refers_to,
}
use ooblivion.Db.Audit.{insert_audit}
use ooblivion.Scheduler.Settings.{write_setting}
use ooblivion.Scheduler.{Clock, unsaved, delete_logs}
use ooblivion.Scheduler.Flushing.{kept_logs}
use ooblivion.Capture.Saving.{healthy}
use ooblivion.Interleaving.Flushes.Ending.{enter_free}
use ooblivion.Interleaving.{Thread, finished, resumed, ◌>>◌}
use ooblivion.Interleaving.Flushes.{
  Call, delete_steps, flushing_thread, waiting, inside, gone, advance, among,
}

-- while a row of the log refers to a row that is to be deleted
refused_lem :
    (selected : Request → Bool) (t : Tables) (r : Request)
    → Member r t.requests
    → selected r ≡ true
    → logged t r.id ≡ true
    → delete_requests selected t ≡ none
unfolding delete_requests
refused_lem selected t r m chosen logged_row = ground (
  arith,
  any_of_Member (λ (x : Request). logged t x.id) r (filter selected t.requests)
      (Member-filter selected r t.requests m chosen) logged_row,
)

abbrev pub noted_row : Bot → ℕ → Job → Str → Tables → NotificationLog
noted_row bot at j reason t = record {
  id = suc t.last_log;
  rule_id = null_int j.rule_id;
  request_id = null_int j.request_id;
  ok = false;
  response = reason;
  sent_at = bot.stamp at;
}

-- The log has lost the rows about requests that are not saved, and has a new one.
abbrev pub noted_db : Bot → ℕ → Job → Str → Tables → Tables
noted_db bot at j reason t = record t {
  notification_log = kept_logs unsaved t ++ noted_row bot at j reason t ∷ [];
  last_log = suc t.last_log;
}

-- the worker notes a failed alert
abbrev pub noting : Bot → ℕ → Job → Str → World → World
noting bot at j reason w = (log_event bot at j false reason w).1

abbrev pub idle : World → World
idle w = w

module _ (clock : Clock) (default_days : ℤ) (bot : Bot) where
  -- what follows the second deletion
  abbrev rest : Call → ℕ → Thread Error ℕ
  rest call count = do
    modify (λ w. record w { last_flush_at = clock.stamp call.now })
    write_setting (codes "last_flush_at") (clock.stamp call.now)
    exec (
        insert_audit (codes "flush_manual") (itoa_ℕ count ++ codes " requests") call.ip
          (clock.stamp call.now))
    finished (ok count)

  abbrev locked : World → Tables → World
  locked w t = record w { db = t; faults = []; flushing = true }

  module _ (at : ℕ) (j : Job) (reason : Str) (r : Request) (w : World)
      (stored : Member r w.db.requests) (unkept : r.saved ≡ false)
      (about : null_int j.request_id ≡ some r.id)
      (ruled : known
          (map (λ (x : NotificationRule). x.id) w.db.notification_rules)
          (null_int j.rule_id)
        ≡ true) where
    known_lem : known (map (λ (x : Request). x.id) w.db.requests) (null_int j.request_id) ≡ true
    known_lem = rw about (
        any_of_Member (λ id. id == r.id) r.id (map (λ (x : Request). x.id) w.db.requests)
          (Member-map (λ (x : Request). x.id) r w.db.requests stored) (ground arith))

    noting_lem :
        log_event bot at j false reason
          (locked w (record w.db { notification_log = kept_logs unsaved w.db }))
        ≡ (ok tt, locked w (noted_db bot at j reason w.db))
    unfolding log_event insert_log exec faulty answered
    noting_lem = rw (ruled, known_lem) refl

    logged_lem : logged (noted_db bot at j reason w.db) r.id ≡ true
    logged_lem =
        any-append (λ (l : NotificationLog). refers_to l.request_id r.id) (kept_logs unsaved w.db)
          (noted_row bot at j reason w.db) (rw about (ground arith))

    refusing_lem :
        exec (delete_requests unsaved) (locked w (noted_db bot at j reason w.db))
        ≡ (err constraint, locked w (noted_db bot at j reason w.db))
    unfolding exec faulty answered
    refusing_lem =
        rw
          (refused_lem unsaved (noted_db bot at j reason w.db) r stored (rw unkept refl) logged_lem)
          refl

    -- A manual flush that finds the lock free, and between whose two deletions the worker notes a
    -- failed alert, about a request that is not saved and with a rule that exists, fails without
    -- faults with a violated constraint: it deletes no request, the log has lost its rows about
    -- requests that are not saved and has the new one, nothing else changes, and the lock is free.
    pub among-noting :
        (ip : Str) (now : ℕ)
        → w.flushing ≡ false
        → among clock default_days
            (idle ∷ idle ∷ noting bot at j reason ∷ idle ∷ [])
            (waiting (record { manual = true; ip = ip; now = now }))
            (healthy w)
          ≡ (
            gone (err constraint),
            record (healthy w) { db = noted_db bot at j reason w.db; flushing = false },
          )
    unfolding among advance flushing_thread delete_steps exec delete_logs faulty answered
    among-noting ip now free =
        let call : Call = record { manual = true; ip = ip; now = now } in
        ap (λ p. among clock default_days (idle ∷ noting bot at j reason ∷ idle ∷ []) p.0 p.1)
          (enter_free clock default_days call (healthy w) free)
        ∙ ap
            (λ v.
              let (x, v') = exec (delete_requests unsaved) v in
              among clock default_days (idle ∷ []) (inside (resumed (rest call) x)) v')
            (ap (λ p. p.1) noting_lem)
        ∙ ap (λ p. among clock default_days (idle ∷ []) (inside (resumed (rest call) p.0)) p.1)
            refusing_lem
