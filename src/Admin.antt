-- ===== src/Admin.antt =====
-- internal/admin: the handlers of the console. What the decoding of a request's body gives is an
-- argument of a handler, with `none` for an error; the texts of instants are the scheduler's clock.
pub mod Pages
pub mod Sessions
pub mod Viewing
pub mod Routes
pub mod Keeping
pub mod Rules
pub mod Requests
pub mod Query
pub mod Display
pub mod Flags
pub mod Sizes
pub mod Functions
pub mod Pagination
pub mod Settings
pub mod Forms
use ooblivion.Shared.{ℕ, Str, codes, ℤ, pos, negsuc, atoi, ◌==◌, Bool, true, false, List}
use ooblivion.Exec.{Result, ok, err, Exec, ignore, raise}
use ooblivion.Models.{Request, Scope, NotificationRule, AuditEntry, Stats}
use ooblivion.Admin.Pages.{ListResponse, SettingsAnswer, Rendered, Download}
use ooblivion.Version.{Build}
use ooblivion.Db.{World, Error, exec}
use ooblivion.Db.Audit.{insert_audit}
use ooblivion.Scheduler.{Clock}

pub record Cookie : Type 0 where
  pub value : Str
  pub max_age : ℤ
  pub http_only : Bool
  pub secure : Bool

-- the body of an answer (JSON, HTML, the text of http.Error or a file), and what it does to the session's cookie
pub data Content : Type 0 where
  problem : Str → Content
  success : Content
  success_id : ℕ → Content
  success_deleted : ℕ → Content
  redirect : Str → Content
  item : Request → Content
  listing : ListResponse → Content
  scope_list : List Scope → Content
  rule_list : List NotificationRule → Content
  audit_list : List AuditEntry → Content
  statistics : Stats → Content
  current_settings : SettingsAnswer → Content
  build_info : Build → Content
  html : Rendered → Content
  plain : Str → Content
  download : Download → Content

pub data CookieChange : Type 0 where
  keep : CookieChange
  put : Cookie → CookieChange

pub record Reply : Type 0 where
  pub status : ℕ
  pub content : Content
  pub session : CookieChange

-- A handler: its early returns are errors.
abbrev pub Handler : Type 0
Handler = Exec World Reply Reply

abbrev pub reply_of : Result Reply Reply → Reply
reply_of (ok r) = r
reply_of (err r) = r

abbrev pub problem_with : ℕ → Str → Reply
problem_with status message = record { status = status; content = problem message; session = keep }

abbrev pub server_error : Error → Reply
server_error e = problem_with 500 (codes "server error")

abbrev pub answer : Content → Reply
answer content = record { status = 200; content = content; session = keep }

-- logAudit: a failure is only logged
module _ {E : Type 0} (clock : Clock) where
  unfoldable pub log_audit : Str → Str → Str → ℕ → Exec World E (Unit {0})
  unfolding insert_audit
  log_audit action detail ip now = ignore (exec (insert_audit action detail ip (clock.stamp now)))

-- strconv.ParseInt of the path's `id`
abbrev pub parsed_id : ℤ × Bool → Exec World Reply ℤ
parsed_id (id, true) w = (ok id, w)
parsed_id (id, false) w = (err (problem_with 400 (codes "bad id")), w)

unfoldable pub path_id : Str → Exec World Reply ℤ
path_id text = parsed_id (atoi text)

-- the condition `id = ?` on a row
abbrev pub is_id : ℤ → ℕ → Bool
is_id (pos n) id = id == n
is_id (negsuc n) id = false
