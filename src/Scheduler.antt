-- ===== src/Scheduler.antt =====
-- internal/scheduler/scheduler.go: the flush of requests that are not saved, and the pruning. The
-- texts of instants (package time) are a parameter.
pub mod Settings
pub mod Flushing
pub mod Retention
pub mod Pruning
use ooblivion.Shared.{
  ℕ, zero, suc, ◌*◌, ◌-◌, ◌++◌, ℤ, pos, negsuc, wrap64, Str, codes, str_eq, str_lt, atoi, itoa_ℕ,
  take, Bool, true, false, not, ◌&&◌, Option, none, some, List, [], ◌∷◌, ◌==◌, leb, any, filter,
  map, order_by, if◌then◌else◌,
}
use ooblivion.Exec.{Result, ok, err, Exec, ◌>>=◌, ◌>>◌, pure, modify, ignore}
use ooblivion.Models.{Request, NotificationLog, AuditEntry}
use ooblivion.Db.{Tables, World, Error, exec, refers_to, delete_requests}
use ooblivion.Db.Audit.{insert_audit}
use ooblivion.Scheduler.Settings.{read_setting, write_setting}
use ooblivion.Auth.Denylist.{denylist_prune}

-- `stamp now` is time.Now().UTC().Format(time.RFC3339), `stamp_add now d` that of Add(d), and
-- `stamp_months_ago now n` that of AddDate(0, -n, 0).
pub record Clock : Type 0 where
  pub stamp : ℕ → Str
  pub stamp_add : ℕ → ℤ → Str
  pub stamp_months_ago : ℕ → ℕ → Str

abbrev pub day_ns : ℕ
day_ns = 86400000000000

-- -time.Duration(days) * 24 * time.Hour, on int64
unfoldable pub retention_offset : ℤ → ℤ
unfolding wrap64
retention_offset (pos zero) = pos zero
retention_offset (pos (suc n)) = wrap64 (negsuc (suc n * day_ns - 1))
retention_offset (negsuc n) = wrap64 (pos (suc n * day_ns))

abbrev pub positive_or : ℤ → ℤ × Bool → ℤ
positive_or default (pos zero, true) = default
positive_or default (pos (suc n), true) = pos (suc n)
positive_or default (negsuc n, true) = default
positive_or default (n, false) = default

-- the rows that one of the two flushes deletes
abbrev pub unsaved : Request → Bool
unsaved r = not r.saved

abbrev pub unsaved_before : Str → Request → Bool
unsaved_before boundary r = not r.saved && str_lt r.created_at boundary

-- DELETE FROM notification_log WHERE request_id IN (SELECT id FROM requests WHERE ...)
unfoldable pub delete_logs : (Request → Bool) → Tables → Option (Unit {0} × Tables)
delete_logs selected t = some (
  tt,
  record t {
    notification_log =
        filter
          (λ (l : NotificationLog).
            not (any (λ (r : Request). refers_to l.request_id r.id) (filter selected t.requests)))
          t.notification_log;
  },
)

module _ {E : Type 0} where
  unfoldable pub retention_days : ℤ → Exec World E ℤ
  retention_days default_days = do
    raw ← read_setting (codes "retention_days")
    pure (positive_or default_days (atoi raw))

  unfoldable pub auto_flush_enabled : Exec World E Bool
  auto_flush_enabled = do
    value ← read_setting (codes "auto_flush_enabled")
    pure (not (str_eq value (codes "0")))

module _ (clock : Clock) where
  -- what follows the choice of the rows
  unfoldable pub flush_rows : Str → Str → ℕ → (Request → Bool) → Exec World Error ℕ
  flush_rows action ip now selected = do
    exec (delete_logs selected)
    count ← exec (delete_requests selected)
    modify (λ w. record w { last_flush_at = clock.stamp now })
    write_setting (codes "last_flush_at") (clock.stamp now)
    exec (insert_audit action (itoa_ℕ count ++ codes " requests") ip (clock.stamp now))
    pure count

  unfoldable pub flush_manual : Str → ℕ → Exec World Error ℕ
  unfolding flush_rows
  flush_manual ip now = flush_rows (codes "flush_manual") ip now unsaved

  -- the branch of the automatic flush that deletes
  unfoldable pub flush_expired : ℤ → Str → ℕ → Exec World Error ℕ
  unfolding flush_rows retention_days retention_offset
  flush_expired default_days ip now = do
    days ← retention_days default_days
    flush_rows (codes "flush_auto") ip now
        (unsaved_before (clock.stamp_add now (retention_offset days)))

  unfoldable pub flush_auto : ℤ → Str → ℕ → Exec World Error ℕ
  unfolding flush_expired auto_flush_enabled
  flush_auto default_days ip now = do
    enabled ← auto_flush_enabled
    if enabled then flush_expired default_days ip now else pure 0

  abbrev pub released : Result Error ℕ × World → Result Error ℕ × World
  released (r, w) = (r, record w { flushing = false })

  -- Flush: while another call holds the lock it does nothing
  unfoldable pub flush : ℤ → Bool → Str → ℕ → Exec World Error ℕ
  unfolding flush_manual flush_auto
  flush default_days manual ip now w =
      if w.flushing
      then (ok 0, w)
      else released (
          (if manual then flush_manual ip now else flush_auto default_days ip now)
            (record w { flushing = true }))

-- DELETE FROM notification_log WHERE id NOT IN (SELECT ... ORDER BY id DESC LIMIT n)
unfoldable pub keep_last_logs : ℕ → Tables → Option (Unit {0} × Tables)
keep_last_logs n t =
    let newest = take n (order_by (λ (a b : NotificationLog). leb b.id a.id) t.notification_log) in
    some (
      tt,
      record t {
        notification_log =
            filter (λ (l : NotificationLog). any (λ (k : NotificationLog). k.id == l.id) newest)
              t.notification_log;
      },
    )

-- DELETE FROM audit_log WHERE created_at < ?
unfoldable pub delete_old_audit : Str → Tables → Option (Unit {0} × Tables)
delete_old_audit boundary t = some (
  tt,
  record t {
    audit_log = filter (λ (e : AuditEntry). not (str_lt e.created_at boundary)) t.audit_log;
  },
)

-- RunOnce: every error is only logged
unfoldable pub run_once : Clock → ℤ → ℕ → Exec World Error (Unit {0})
unfolding flush denylist_prune keep_last_logs delete_old_audit
run_once clock default_days now = do
  ignore (flush clock default_days false (codes "system") now)
  ignore (denylist_prune (clock.stamp now))
  ignore (exec (keep_last_logs 5000))
  ignore (exec (delete_old_audit (clock.stamp_months_ago now 3)))

-- what the `select` of Start receives: the ticker's tick at an instant, or the end of the context
pub data Signal : Type 0 where
  tick : ℕ → Signal
  cancelled : Signal

-- the goroutine of Start; without a signal it waits
unfoldable pub start : Clock → ℤ → List Signal → Exec World Error (Unit {0})
unfolding run_once
start clock default_days [] = pure tt
start clock default_days (cancelled ∷ signals) = pure tt
start clock default_days (tick now ∷ signals) = do
  run_once clock default_days now
  start clock default_days signals
