-- ===== src/Admin/Rules/Deleting.antt =====
-- Deleting a scope or a rule: handleDeleteScope and handleDeleteRule of
-- internal/admin/handlers_rules.go against the foreign keys.
use ooblivion.Shared.{
  ◌≡◌, refl, arith, ℕ, suc, ℤ, Str, codes, atoi, itoa, true, false, not, none, some, List, [], ◌∷◌,
  ◌++◌, any, filter, map, if◌then◌else◌,
}
use ooblivion.Shared.Select.{any-eq-false, filter-Member}
use ooblivion.Exec.{ok}
use ooblivion.Models.{Request, Scope, NotificationRule, NotificationLog}
use ooblivion.Db.{Tables, World, exec, faulty, answered, refers_to}
use ooblivion.Db.Audit.{insert_audit, audit_entry}
use ooblivion.Http.{HttpRequest}
use ooblivion.Http.ClientIp.{auth_client_ip}
use ooblivion.Capture.Saving.{healthy}
use ooblivion.Admin.{success, answer, log_audit, path_id, is_id}
use ooblivion.Admin.Rules.{RulesLib, finish}
use ooblivion.Admin.Rules.Scopes.{in_scope, unscope, delete_scopes, delete_scope}
use ooblivion.Admin.Rules.Notifications.{of_rule, delete_rule_logs, delete_rules, delete_rule}

abbrev pub unscoped : ℤ → List Request → List Request
unscoped id rows =
    map (λ (r : Request). if in_scope id r.scope_id then record r { scope_id = none } else r) rows

abbrev pub without_rule : ℤ → List NotificationLog → List NotificationLog
without_rule id logs = filter (λ (l : NotificationLog). not (of_rule id l.rule_id)) logs

unreferenced :
    (id : ℤ) (n : ℕ) (rows : List Request)
    → is_id id n ≡ true
    → any (λ (r : Request). refers_to r.scope_id n) (unscoped id rows) ≡ false
unfolding any
unreferenced id n [] h = refl
unreferenced id n (r ∷ rows) h = ground (arith, unreferenced id n rows h)

unlogged :
    (id : ℤ) (n : ℕ) (logs : List NotificationLog)
    → is_id id n ≡ true
    → any (λ (l : NotificationLog). refers_to l.rule_id n) (without_rule id logs) ≡ false
unfolding any filter
unlogged id n [] h = refl
unlogged id n (l ∷ logs) h = ground (arith, unlogged id n logs h)

delete_scopes-unscope :
    (id : ℤ) (t : Tables)
    → delete_scopes id (record t { requests = unscoped id t.requests })
      ≡ some (
        tt,
        record t {
          requests = unscoped id t.requests;
          scopes = filter (λ (s : Scope). not (is_id id s.id)) t.scopes;
        },
      )
unfolding delete_scopes
delete_scopes-unscope id t = ground (
  arith,
  any-eq-false
      (λ (s : Scope). any (λ (r : Request). refers_to r.scope_id s.id) (unscoped id t.requests))
      (filter (λ (s : Scope). is_id id s.id) t.scopes)
      (λ s m. unreferenced id s.id t.requests (filter-Member (λ x. is_id id x.id) s t.scopes m).1),
)

delete_rules-delete_rule_logs :
    (id : ℤ) (t : Tables)
    → delete_rules id (record t { notification_log = without_rule id t.notification_log })
      ≡ some (
        tt,
        record t {
          notification_log = without_rule id t.notification_log;
          notification_rules =
              filter (λ (x : NotificationRule). not (is_id id x.id)) t.notification_rules;
        },
      )
unfolding delete_rules
delete_rules-delete_rule_logs id t = ground (
  arith,
  any-eq-false
      (λ (x : NotificationRule).
        any (λ (l : NotificationLog). refers_to l.rule_id x.id)
          (without_rule id t.notification_log))
      (filter (λ (x : NotificationRule). is_id id x.id) t.notification_rules)
      (λ x m.
        unlogged id x.id t.notification_log
          (filter-Member (λ y. is_id id y.id) x t.notification_rules m).1),
)

module _ (c : RulesLib) (r : HttpRequest) (text : Str) (now : ℕ) (w : World) where
  -- The tables with one more entry in the audit log.
  abbrev pub audited : Str → Str → Tables → Tables
  audited action detail t = record t {
    audit_log =
        t.audit_log
        ++ audit_entry (suc t.last_audit) action detail (auth_client_ip c.trim_space r)
            (c.clock.stamp now)
          ∷ [];
    last_audit = suc t.last_audit;
  }

  abbrev pub scope_deleted : ℤ → Tables
  scope_deleted id = record w.db {
    requests = unscoped id w.db.requests;
    scopes = filter (λ (s : Scope). not (is_id id s.id)) w.db.scopes;
  }

  abbrev pub rule_deleted : ℤ → Tables
  rule_deleted id = record w.db {
    notification_log = without_rule id w.db.notification_log;
    notification_rules =
        filter (λ (x : NotificationRule). not (is_id id x.id)) w.db.notification_rules;
  }

  -- Without faults the deletion of a scope by an id that parses always succeeds: requests saved
  -- under it stay saved, without a scope, its row goes, one audit entry is added, and nothing else
  -- changes.
  pub delete_scope_lem :
      (id : ℤ)
      → atoi text ≡ (id, true)
      → delete_scope c r text now (healthy w) ≡ (
        ok (answer success),
        healthy (record w {
          db =
              audited
                (codes "scope_delete")
                (codes "scope " ++ itoa id ++ codes " deleted")
                (scope_deleted id);
        }),
      )
  unfolding delete_scope path_id unscope finish log_audit exec faulty answered insert_audit
  delete_scope_lem id h = ground (arith, h, delete_scopes-unscope id w.db)

  -- Without faults the deletion of a rule by an id that parses always succeeds: the log rows of
  -- its alerts go with it, one audit entry is added, and nothing else changes.
  pub delete_rule_lem :
      (id : ℤ)
      → atoi text ≡ (id, true)
      → delete_rule c r text now (healthy w) ≡ (
        ok (answer success),
        healthy (record w {
          db =
              audited
                (codes "rule_delete")
                (codes "rule " ++ itoa id ++ codes " deleted")
                (rule_deleted id);
        }),
      )
  unfolding delete_rule path_id delete_rule_logs finish log_audit exec faulty answered insert_audit
  delete_rule_lem id h = ground (arith, h, delete_rules-delete_rule_logs id w.db)
