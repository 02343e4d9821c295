-- ===== src/Admin/Rules/Notifications.antt =====
-- The handlers of notification rules: internal/admin/handlers_rules.go.
use ooblivion.Shared.{
  ℕ, suc, ℤ, Str, codes, itoa, itoa_ℕ, Bool, true, false, not, Option, none, some, List, [], ◌∷◌,
  ◌++◌, any, filter, map, order_by, leb, if◌then◌else◌,
}
use ooblivion.Exec.{Exec, ◌>>=◌, ◌>>◌, pure, or_else}
use ooblivion.Models.{NotificationRule, NotificationLog}
use ooblivion.Db.{Tables, World, Error, exec, query, rows_err, refers_to}
use ooblivion.Http.{HttpRequest}
use ooblivion.Admin.{success, success_id, Handler, server_error, path_id, is_id}
use ooblivion.Admin.Rules.{RulesLib, RulePayload, or_default, valid_payload, finish}

-- INSERT INTO notification_rules
unfoldable pub insert_rule : RulePayload → Str → Tables → Option (ℕ × Tables)
insert_rule p now t =
    let id = suc t.last_rule in
    let row : NotificationRule = record {
      id = id;
      name = p.name;
      match_on = p.match_on;
      match_type = p.match_type;
      pattern = p.pattern;
      header_name = p.header_name;
      enabled = or_default true p.enabled;
      created_at = now;
      updated_at = now;
    } in
    some (id, record t { notification_rules = t.notification_rules ++ row ∷ []; last_rule = id })

-- UPDATE notification_rules SET ... WHERE id = ?
unfoldable pub updated_rule : RulePayload → Str → NotificationRule → NotificationRule
updated_rule p now s = record s {
  name = p.name;
  match_on = p.match_on;
  match_type = p.match_type;
  pattern = p.pattern;
  header_name = p.header_name;
  enabled = or_default true p.enabled;
  updated_at = now;
}

unfoldable pub update_rule : ℤ → RulePayload → Str → Tables → Option (Unit {0} × Tables)
unfolding updated_rule
update_rule id p now t = some (
  tt,
  record t {
    notification_rules =
        map (λ (s : NotificationRule). if is_id id s.id then updated_rule p now s else s)
          t.notification_rules;
  },
)

-- UPDATE notification_rules SET enabled = CASE enabled WHEN 1 THEN 0 ELSE 1 END WHERE id = ?
unfoldable pub toggle_rule : ℤ → Tables → Option (Unit {0} × Tables)
toggle_rule id t = some (
  tt,
  record t {
    notification_rules =
        map
          (λ (s : NotificationRule).
            if is_id id s.id then record s { enabled = not s.enabled } else s)
          t.notification_rules;
  },
)

abbrev pub of_rule : ℤ → Option ℕ → Bool
of_rule id none = false
of_rule id (some key) = is_id id key

-- DELETE FROM notification_log WHERE rule_id = ?
unfoldable pub delete_rule_logs : ℤ → Tables → Option (Unit {0} × Tables)
delete_rule_logs id t = some (
  tt,
  record t {
    notification_log =
        filter (λ (l : NotificationLog). not (of_rule id l.rule_id)) t.notification_log;
  },
)

-- DELETE FROM notification_rules WHERE id = ?: refused while a row of the log refers to it
unfoldable pub delete_rules : ℤ → Tables → Option (Unit {0} × Tables)
delete_rules id t =
    let doomed = filter (λ (x : NotificationRule). is_id id x.id) t.notification_rules in
    if any
      (λ (x : NotificationRule).
        any (λ (l : NotificationLog). refers_to l.rule_id x.id) t.notification_log)
      doomed
    then none
    else some (
      tt,
      record t {
        notification_rules =
            filter (λ (x : NotificationRule). not (is_id id x.id)) t.notification_rules;
      },
    )

module _ (c : RulesLib) where
  -- handleCreateRule
  unfoldable pub create_rule : HttpRequest → Option RulePayload → ℕ → Handler
  unfolding valid_payload insert_rule finish
  create_rule r body now = do
    p ← valid_payload c body
    id ← or_else server_error (exec (insert_rule p (c.clock.stamp now)))
    finish c (codes "rule_create")
        (codes "rule " ++ itoa_ℕ id ++ codes " " ++ c.quote p.name ++ codes " created") r now
        (success_id id)

  abbrev named : ℤ → Str → Str
  named id what = codes "rule " ++ itoa id ++ what

  -- handleUpdateRule
  unfoldable pub put_rule : HttpRequest → Str → Option RulePayload → ℕ → Handler
  unfolding path_id valid_payload update_rule finish
  put_rule r path_value body now = do
    id ← path_id path_value
    p ← valid_payload c body
    or_else server_error (exec (update_rule id p (c.clock.stamp now)))
    finish c (codes "rule_update") (named id (codes " updated")) r now success

  -- handleToggleRule
  unfoldable pub switch_rule : HttpRequest → Str → ℕ → Handler
  unfolding path_id toggle_rule finish
  switch_rule r path_value now = do
    id ← path_id path_value
    or_else server_error (exec (toggle_rule id))
    finish c (codes "rule_toggle") (named id (codes " toggled")) r now success

  -- handleDeleteRule
  unfoldable pub delete_rule : HttpRequest → Str → ℕ → Handler
  unfolding path_id delete_rule_logs delete_rules finish
  delete_rule r path_value now = do
    id ← path_id path_value
    or_else server_error (exec (delete_rule_logs id))
    or_else server_error (exec (delete_rules id))
    finish c (codes "rule_delete") (named id (codes " deleted")) r now success

-- listRules
unfoldable pub list_rules : Exec World Error (List NotificationRule)
unfolding rows_err
list_rules = do
  items ← query (λ (t : Tables). order_by (λ a b. leb a.id b.id) t.notification_rules)
  rows_err
  pure items
