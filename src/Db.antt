-- ===== src/Db.antt =====
-- The SQLite database of internal/db/migrations, as the statements of the program see it: a table
-- is the list of its rows in the order of insertion. Foreign keys are enforced (internal/db/db.go
-- sets `foreign_keys(1)`). A statement can also fail for reasons outside the program; these faults
-- are a list of answers, one for each statement, in the order of execution.
pub mod Audit
pub mod Keeping
pub mod Keys
pub mod Migrations
pub mod Opening
use ooblivion.Shared.{
  ℕ, Str, Bool, false, not, Option, none, some, List, [], ◌∷◌, ◌==◌, any, filter, length,
  if◌then◌else◌,
}
use ooblivion.Exec.{Result, ok, err, Exec}
use ooblivion.Models.{Request, Scope, NotificationRule, NotificationLog, AuditEntry}
use ooblivion.Telegram.{Job}

pub record Credentials : Type 0 where
  pub password_hash : Str
  pub created_at : Str
  pub updated_at : Str

pub record Tables : Type 0 where
  pub requests : List Request
  pub scopes : List Scope
  pub notification_rules : List NotificationRule
  pub notification_log : List NotificationLog
  pub auth : Option Credentials
  pub jwt_denylist : List (Str × Str)
  pub settings : List (Str × Str)
  pub audit_log : List AuditEntry
  pub total_captured : ℕ
  -- the last identifiers given, by AUTOINCREMENT
  pub last_request : ℕ
  pub last_scope : ℕ
  pub last_rule : ℕ
  pub last_log : ℕ
  pub last_audit : ℕ

-- The database and the shared state of the program's components.
pub record World : Type 0 where
  pub db : Tables
  pub faults : List Bool
  -- the channel `jobs` of the Telegram sender
  pub queue : List Job
  -- `flushLock` and `lastFlushAt` of the scheduler
  pub flushing : Bool
  pub last_flush_at : Str
  -- `attempts` of the login limiter
  pub attempts : List (Str × List ℕ)

pub data Error : Type 0 where
  driver constraint no_rows panic : Error

unfoldable pub faulty : List Bool → Bool
faulty [] = false
faulty (b ∷ bs) = b

unfoldable pub answered : World → World
answered w = record w { faults = elim w.faults [ [] ↦ [] | b ∷ bs ↦ bs ] }

module _ {A : Type 0} where
  abbrev pub done : World → Option (A × Tables) → Result Error A × World
  done w none = (err constraint, w)
  done w (some (a, t)) = (ok a, record w { db = t })

  abbrev found : World → Option A → Result Error A × World
  found w none = (err no_rows, w)
  found w (some a) = (ok a, w)

  -- db.Exec: `none` is a violated constraint, the number is RowsAffected or LastInsertId
  unfoldable pub exec : (Tables → Option (A × Tables)) → Exec World Error A
  exec statement w =
      if faulty w.faults then (err driver, answered w) else done (answered w) (statement w.db)

  -- db.Query with its loop over the rows
  unfoldable pub query : (Tables → A) → Exec World Error A
  query select w =
      if faulty w.faults then (err driver, answered w) else (ok (select w.db), answered w)

  -- db.QueryRow with Scan
  unfoldable pub query_row : (Tables → Option A) → Exec World Error A
  query_row select w =
      if faulty w.faults then (err driver, answered w) else found (answered w) (select w.db)

-- rows.Err() after the loop
unfoldable pub rows_err : Exec World Error (Unit {0})
rows_err w = if faulty w.faults then (err driver, answered w) else (ok tt, answered w)

-- a foreign key that may be NULL
abbrev pub refers_to : Option ℕ → ℕ → Bool
refers_to none id = false
refers_to (some key) id = key == id

abbrev pub logged : Tables → ℕ → Bool
logged t id = any (λ (l : NotificationLog). refers_to l.request_id id) t.notification_log

-- DELETE FROM requests WHERE ...: refused while a row of notification_log refers to a deleted row
unfoldable pub delete_requests : (Request → Bool) → Tables → Option (ℕ × Tables)
delete_requests selected t =
    let doomed = filter selected t.requests in
    if any (λ (r : Request). logged t r.id) doomed
    then none
    else some (length doomed, record t { requests = filter (λ r. not (selected r)) t.requests })
