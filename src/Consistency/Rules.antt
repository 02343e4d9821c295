-- ===== src/Consistency/Rules.antt =====
-- The statements on the tables of scopes and of rules, in internal/admin/handlers_rules.go: each
-- keeps the tables consistent, or is refused. What is written has passed the console's check.
use ooblivion.Shared.{ℕ, ◌≡◌, refl, arith, ℤ, Str, none, map}
use ooblivion.Shared.Numbered.{
  IsNumbered-append, IsNumbered-filter, IsNumbered-map, All-append, All-filter, All-map, All-imp,
}
use ooblivion.Models.{Request, Scope, NotificationRule, NotificationLog}
use ooblivion.Db.{Tables}
use ooblivion.Db.Keeping.{Allows}
use ooblivion.Db.Keys.{RefersTo-append, RefersTo-map, RefersTo-delete}
use ooblivion.Admin.{is_id}
use ooblivion.Admin.Rules.{RulesLib, RulePayload, validate}
use ooblivion.Admin.Rules.Scopes.{
  insert_scope, updated_scope, update_scope, toggle_scope, delete_scopes,
}
use ooblivion.Admin.Rules.Notifications.{
  insert_rule, updated_rule, update_rule, toggle_rule, delete_rules,
}
use ooblivion.Consistency.{IsConsistent, scope_payload, rule_payload}
use ooblivion.Consistency.Statements.{total, unguarded, either}

abbrev scope_id : Scope → ℕ
scope_id s = s.id

abbrev rule_id : NotificationRule → ℕ
rule_id x = x.id

abbrev IsValidScope : RulesLib → Scope → Type 0
IsValidScope c s = validate c (scope_payload s) ≡ none

module _ {c : RulesLib} where
  -- An update of scopes that keeps their identifiers.
  updated_scopes :
      (t : Tables) (f : Scope → Scope)
      → ((s : Scope) → (f s).id ≡ s.id)
      → ((s : Scope) → IsValidScope c s → IsValidScope c (f s))
      → IsConsistent c t
      → IsConsistent c (record t { scopes = map f t.scopes })
  updated_scopes t f same valid (r, s, x, l, a, k) = (
    record {
      numbered = r.numbered;
      scope_keys = All-imp _ _ _ (λ row. RefersTo-map scope_id f row.scope_id _ same) r.scope_keys;
      kept = r.kept;
    },
    record {
      numbered = IsNumbered-map scope_id f _ _ _ same s.numbered;
      valid = All-map _ _ f _ valid s.valid;
    },
    x,
    l,
    a,
    k,
  )

  pub Allows-insert_scope :
      (p : RulePayload) (now : Str)
      → validate c p ≡ none
      → Allows (IsConsistent c) (insert_scope p now)
  unfolding insert_scope validate
  Allows-insert_scope p now good = total _ _ (λ t (r, s, x, l, a, k). (
    record {
      numbered = r.numbered;
      scope_keys = All-imp _ _ _ (λ row. RefersTo-append scope_id row.scope_id _ _) r.scope_keys;
      kept = r.kept;
    },
    record {
      numbered = IsNumbered-append scope_id _ _ _ _ refl s.numbered;
      valid = All-append _ _ _ s.valid good;
    },
    x,
    l,
    a,
    k,
  ))

  pub Allows-update_scope :
      (id : ℤ) (p : RulePayload) (now : Str)
      → validate c p ≡ none
      → Allows (IsConsistent c) (update_scope id p now)
  unfolding update_scope updated_scope validate
  Allows-update_scope id p now good = total _ _ (λ t.
      updated_scopes t _ (λ s. ground arith)
        (λ s k. either (IsValidScope c) (is_id id s.id) _ _ good k))

  pub Allows-toggle_scope : (id : ℤ) → Allows (IsConsistent c) (toggle_scope id)
  unfolding toggle_scope
  Allows-toggle_scope id = total _ _ (λ t.
      updated_scopes t _ (λ s. ground arith)
        (λ s k. either (IsValidScope c) (is_id id s.id) _ _ k k))

  pub Allows-delete_scopes : (id : ℤ) → Allows (IsConsistent c) (delete_scopes id)
  unfolding delete_scopes
  Allows-delete_scopes id = unguarded _ _ _ (λ t free (r, s, x, l, a, k). (
    record {
      numbered = r.numbered;
      scope_keys =
          RefersTo-delete scope_id (λ (row : Request). row.scope_id) _ t.scopes _ free r.scope_keys;
      kept = r.kept;
    },
    record {
      numbered = IsNumbered-filter scope_id _ _ _ _ s.numbered;
      valid = All-filter _ _ _ s.valid;
    },
    x,
    l,
    a,
    k,
  ))

abbrev IsValidNotificationRule : RulesLib → NotificationRule → Type 0
IsValidNotificationRule c s = validate c (rule_payload s) ≡ none

module _ {c : RulesLib} where
  -- An update of rules that keeps their identifiers.
  updated_rules :
      (t : Tables) (f : NotificationRule → NotificationRule)
      → ((s : NotificationRule) → (f s).id ≡ s.id)
      → ((s : NotificationRule) → IsValidNotificationRule c s → IsValidNotificationRule c (f s))
      → IsConsistent c t
      → IsConsistent c (record t { notification_rules = map f t.notification_rules })
  updated_rules t f same valid (r, s, x, l, a, k) = (
    r,
    s,
    record {
      numbered = IsNumbered-map rule_id f _ _ _ same x.numbered;
      valid = All-map _ _ f _ valid x.valid;
    },
    record {
      numbered = l.numbered;
      rule_keys = All-imp _ _ _ (λ row. RefersTo-map rule_id f row.rule_id _ same) l.rule_keys;
      request_keys = l.request_keys;
    },
    a,
    k,
  )

  pub Allows-insert_rule :
      (p : RulePayload) (now : Str)
      → validate c p ≡ none
      → Allows (IsConsistent c) (insert_rule p now)
  unfolding insert_rule validate
  Allows-insert_rule p now good = total _ _ (λ t (r, s, x, l, a, k). (
    r,
    s,
    record {
      numbered = IsNumbered-append rule_id _ _ _ _ refl x.numbered;
      valid = All-append _ _ _ x.valid good;
    },
    record {
      numbered = l.numbered;
      rule_keys = All-imp _ _ _ (λ row. RefersTo-append rule_id row.rule_id _ _) l.rule_keys;
      request_keys = l.request_keys;
    },
    a,
    k,
  ))

  pub Allows-update_rule :
      (id : ℤ) (p : RulePayload) (now : Str)
      → validate c p ≡ none
      → Allows (IsConsistent c) (update_rule id p now)
  unfolding update_rule updated_rule validate
  Allows-update_rule id p now good = total _ _ (λ t.
      updated_rules t _ (λ s. ground arith)
        (λ s k. either (IsValidNotificationRule c) (is_id id s.id) _ _ good k))

  pub Allows-toggle_rule : (id : ℤ) → Allows (IsConsistent c) (toggle_rule id)
  unfolding toggle_rule
  Allows-toggle_rule id = total _ _ (λ t.
      updated_rules t _ (λ s. ground arith)
        (λ s k. either (IsValidNotificationRule c) (is_id id s.id) _ _ k k))

  pub Allows-delete_rules : (id : ℤ) → Allows (IsConsistent c) (delete_rules id)
  unfolding delete_rules
  Allows-delete_rules id = unguarded _ _ _ (λ t free (r, s, x, l, a, k). (
    r,
    s,
    record {
      numbered = IsNumbered-filter rule_id _ _ _ _ x.numbered;
      valid = All-filter _ _ _ x.valid;
    },
    record {
      numbered = l.numbered;
      rule_keys =
          RefersTo-delete rule_id (λ (row : NotificationLog). row.rule_id) _ t.notification_rules _
            free l.rule_keys;
      request_keys = l.request_keys;
    },
    a,
    k,
  ))

pub ruleset console_rules =
    (Allows-toggle_scope, Allows-delete_scopes, Allows-toggle_rule, Allows-delete_rules)
