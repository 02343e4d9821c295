-- ===== src/Consistency.antt =====
-- What the tables of internal/db/migrations satisfy whenever the program runs: keys, and the checks
-- of the console on what it stores.
pub mod Statements
pub mod Requests
pub mod Rules
pub mod Logs
pub mod Effects
pub mod Handlers
pub mod Accounts
pub mod Capturing
pub mod Runs
pub mod Retention
use ooblivion.Shared.{
  ℕ, ◌≡◌, refl, arith, ℤ, Str, codes, str_eq, atoi, Bool, true, Option, none, some, List, [], ◌∷◌,
}
use ooblivion.Shared.Numbered.{IsNumbered}
use ooblivion.Shared.{All}
use ooblivion.Models.{Request, Scope, NotificationRule, NotificationLog, AuditEntry}
use ooblivion.Db.{Tables}
use ooblivion.Db.Keys.{RefersTo}
use ooblivion.Admin.Rules.{RulesLib, RulePayload, validate}
use ooblivion.Admin.Settings.{in_range}

-- The payload that would write the row's rule.
abbrev pub scope_payload : Scope → RulePayload
scope_payload s = record {
  name = s.name;
  match_on = s.match_on;
  match_type = s.match_type;
  pattern = s.pattern;
  header_name = s.header_name;
  enabled = none;
  priority = none;
}

abbrev pub rule_payload : NotificationRule → RulePayload
rule_payload s = record {
  name = s.name;
  match_on = s.match_on;
  match_type = s.match_type;
  pattern = s.pattern;
  header_name = s.header_name;
  enabled = none;
  priority = none;
}

-- A request with a scope is a saved one.
abbrev pub IsKept : Bool → Option ℕ → Type 0
IsKept saved none = Unit
IsKept saved (some scope_id) = saved ≡ true

-- A retention that is stored is a number from 1 to 3650.
abbrev pub IsSetting : Str × Str → Type 0
IsSetting (key, value) =
    str_eq key (codes "retention_days") ≡ true → in_range (some (atoi value).0) ≡ true

-- Identifiers ascend; every request's scope exists, and a request with a scope is saved.
pub record HasRequests (scopes : List Scope) (last : ℕ) (rows : List Request) : Type 0 where
  pub numbered : IsNumbered (λ (r : Request). r.id) last 0 rows
  pub scope_keys : All (λ (r : Request). RefersTo (λ (s : Scope). s.id) scopes r.scope_id) rows
  pub kept : All (λ (r : Request). IsKept r.saved r.scope_id) rows

-- Every stored scope passes the check of the console.
pub record HasScopes (c : RulesLib) (last : ℕ) (rows : List Scope) : Type 0 where
  pub numbered : IsNumbered (λ (s : Scope). s.id) last 0 rows
  pub valid : All (λ (s : Scope). validate c (scope_payload s) ≡ none) rows

pub record HasRules (c : RulesLib) (last : ℕ) (rows : List NotificationRule) : Type 0 where
  pub numbered : IsNumbered (λ (x : NotificationRule). x.id) last 0 rows
  pub valid : All (λ (x : NotificationRule). validate c (rule_payload x) ≡ none) rows

-- The rule and the request of every row of the log exist.
pub record HasLogs (rules : List NotificationRule) (requests : List Request) (last : ℕ)
    (rows : List NotificationLog) : Type 0 where
  pub numbered : IsNumbered (λ (l : NotificationLog). l.id) last 0 rows
  pub rule_keys :
      All (λ (l : NotificationLog). RefersTo (λ (x : NotificationRule). x.id) rules l.rule_id) rows
  pub request_keys :
      All (λ (l : NotificationLog). RefersTo (λ (r : Request). r.id) requests l.request_id) rows

-- The condition of every table.
abbrev pub IsConsistent : RulesLib → Tables → Type 0
IsConsistent c t =
    HasRequests t.scopes t.last_request t.requests
    × HasScopes c t.last_scope t.scopes
    × HasRules c t.last_rule t.notification_rules
    × HasLogs t.notification_rules t.requests t.last_log t.notification_log
    × IsNumbered (λ (e : AuditEntry). e.id) t.last_audit 0 t.audit_log
    × All IsSetting t.settings
