-- ===== src/Admin/Rules.antt =====
-- Scopes and notification rules: internal/admin/handlers_rules.go.
pub mod Scopes
pub mod Notifications
pub mod Deleting
use ooblivion.Shared.{
  ℕ, suc, ℤ, pos, Str, codes, str_eq, is_empty, itoa, itoa_ℕ, Bool, true, false, not, ◌&&◌, ◌||◌,
  Option, none, some, List, [], ◌∷◌, ◌++◌, ◌==◌, any, filter, map, order_by, leb, if◌then◌else◌,
}
use ooblivion.Exec.{Exec, ◌>>=◌, ◌>>◌, pure, raise, or_else}
use ooblivion.Matcher.{TextLib}
use ooblivion.Models.{Request, Scope, NotificationRule, NotificationLog}
use ooblivion.Db.{Tables, World, Error, exec, query, query_row, rows_err, refers_to}
use ooblivion.Http.{HttpRequest}
use ooblivion.Http.ClientIp.{auth_client_ip}
use ooblivion.Capture.Classify.{scope_before}
use ooblivion.Scheduler.{Clock}
use ooblivion.Admin.{
  Content, success, success_id, Reply, Handler, problem_with, server_error, answer, log_audit,
  path_id, is_id,
}

-- the packages that the handlers use: regexp and the case tables, strings.TrimSpace, and the verb
-- %q of package fmt
pub record RulesLib : Type 0 where
  pub clock : Clock
  pub lib : TextLib
  pub trim_space : Str → Str
  pub quote : Str → Str

pub record RulePayload : Type 0 where
  pub name : Str
  pub match_on : Str
  pub match_type : Str
  pub pattern : Str
  pub header_name : Option Str
  pub enabled : Option Bool
  pub priority : Option ℤ

abbrev pub match_ons : List Str
match_ons =
    codes "host"
    ∷ codes "path"
    ∷ codes "query"
    ∷ codes "method"
    ∷ codes "header"
    ∷ codes "body"
    ∷ codes "user_agent"
    ∷ codes "source_ip"
    ∷ []

abbrev pub match_types : List Str
match_types =
    codes "contains"
    ∷ codes "equals"
    ∷ codes "prefix"
    ∷ codes "suffix"
    ∷ codes "regex"
    ∷ codes "exists"
    ∷ []

-- contains
unfoldable pub listed : List Str → Str → Bool
listed list v = any (λ item. str_eq item v) list

abbrev pub or_default : {A : Type 0} → A → Option A → A
or_default default none = default
or_default default (some a) = a

module _ (c : RulesLib) where
  abbrev blank : Str → Bool
  blank s = is_empty (c.trim_space s)

  abbrev blank_name : Option Str → Bool
  blank_name none = true
  blank_name (some name) = blank name

  abbrev compiles : Option (Str → Bool) → Bool
  compiles none = false
  compiles (some re) = true

  -- validate: `none` is no error; the text of regexp's own error is left out
  unfoldable pub validate : RulePayload → Option Str
  unfolding listed
  validate p =
      if blank p.name
      then some (codes "name is required")
      else if not (listed match_ons p.match_on)
      then some (codes "invalid match_on")
      else if not (listed match_types p.match_type)
      then some (codes "invalid match_type")
      else if blank p.pattern && not (str_eq p.match_type (codes "exists"))
      then some (codes "pattern is required")
      else if str_eq p.match_on (codes "header") && blank_name p.header_name
      then some (codes "header_name is required for header match")
      else if str_eq p.match_type (codes "regex") && not (compiles (c.lib.compile p.pattern))
      then some (codes "invalid regex")
      else none

  abbrev body_or : Option RulePayload → Exec World Reply RulePayload
  body_or none = raise (problem_with 400 (codes "invalid body"))
  body_or (some p) = pure p

  abbrev pub error_or : RulePayload → Option Str → Exec World Reply RulePayload
  error_or p none = pure p
  error_or p (some message) = raise (problem_with 400 message)

  -- what the four handlers that take a payload begin with
  unfoldable pub valid_payload : Option RulePayload → Exec World Reply RulePayload
  unfolding validate
  valid_payload body = do p ← body_or body; error_or p (validate p)

  -- the audit entry and the answer that the handlers end with
  unfoldable pub finish : Str → Str → HttpRequest → ℕ → Content → Handler
  unfolding log_audit auth_client_ip
  finish action detail r now content = do
    log_audit c.clock action detail (auth_client_ip c.trim_space r) now
    pure (answer content)
