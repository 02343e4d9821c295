-- ===== src/Consistency/Logs.antt =====
-- The statements on the logs, and those that leave the tables with keys alone, in
-- internal/telegram, internal/scheduler, internal/auth, internal/admin and cmd/ooblivion.
use ooblivion.Shared.{
  ℕ, ◌≡◌, refl, sym, subst, arith, ℤ, Str, codes, str_eq, str_eq_iff, Bool, true, false, ◌&&◌,
  Option, none, some, List, [], ◌∷◌, any, filter, map, All,
}
use ooblivion.Shared.Numbered.{IsNumbered-append, IsNumbered-filter, All-append, All-filter}
use ooblivion.Models.{Request, NotificationRule, NotificationLog, AuditEntry}
use ooblivion.Db.{Tables}
use ooblivion.Db.Audit.{insert_audit}
use ooblivion.Db.Keeping.{Allows, Keeps, Keeps-exec}
use ooblivion.Db.Keys.{RefersTo}
use ooblivion.Auth.Denylist.{insert_denied, delete_expired}
use ooblivion.Scheduler.{delete_logs, keep_last_logs, delete_old_audit}
use ooblivion.Scheduler.Settings.{put_setting, write_setting}
use ooblivion.Telegram.Sender.{insert_log, known}
use ooblivion.Admin.Rules.{RulesLib}
use ooblivion.Admin.Rules.Notifications.{delete_rule_logs}
use ooblivion.Admin.Sessions.{Console}
use ooblivion.Admin.Sessions.Accounts.{update_auth}
use ooblivion.Server.Setup.{insert_auth}
use ooblivion.Consistency.{IsConsistent, IsSetting}
use ooblivion.Consistency.Statements.{total, guarded, unguarded}

known-RefersTo :
    {A : Type 0} (id : A → ℕ) (rows : List A) (key : Option ℕ)
    → known (map id rows) key ≡ true
    → RefersTo id rows key
unfolding any
known-RefersTo id rows none h = tt
known-RefersTo id [] (some key) h = h
known-RefersTo id (a ∷ rows) (some key) h = ground (arith, h, known-RefersTo id rows (some key))

both : (a b : Bool) → a && b ≡ true → (a ≡ true) × (b ≡ true)
both a b h = ground (arith, h)

IsSetting-put_setting :
    (key value : Str) (settings : List (Str × Str))
    → IsSetting (key, value)
    → All IsSetting settings
    → All IsSetting (put_setting key value settings)
unfolding put_setting
IsSetting-put_setting key value [] h k = (h, tt)
IsSetting-put_setting key value ((j, v) ∷ settings) h k =
    ground (arith, h, k, str_eq_iff j key, IsSetting-put_setting key value settings h k.1)

only_auth :
    (hash now : Str) (t t' : Tables) (b : Unit {0})
    → insert_auth hash now t ≡ some (b, t')
    → t' ≡ record t { auth = t'.auth }
unfolding insert_auth
only_auth hash now t t' b e = ground (arith, e)

module _ {c : RulesLib} where
  -- A DELETE on the log.
  fewer :
      (t : Tables) (kept : NotificationLog → Bool)
      → IsConsistent c t
      → IsConsistent c (record t { notification_log = filter kept t.notification_log })
  fewer t kept (r, s, x, l, a, k) = (
    r,
    s,
    x,
    record {
      numbered = IsNumbered-filter (λ (row : NotificationLog). row.id) kept _ _ _ l.numbered;
      rule_keys = All-filter _ _ _ l.rule_keys;
      request_keys = All-filter _ _ _ l.request_keys;
    },
    a,
    k,
  )

  pub Allows-delete_logs :
      (selected : Request → Bool) → Allows (IsConsistent c) (delete_logs selected)
  unfolding delete_logs
  Allows-delete_logs selected = total _ _ (λ t. fewer t _)

  pub Allows-keep_last_logs : (n : ℕ) → Allows (IsConsistent c) (keep_last_logs n)
  unfolding keep_last_logs
  Allows-keep_last_logs n = total _ _ (λ t. fewer t _)

  pub Allows-delete_rule_logs : (id : ℤ) → Allows (IsConsistent c) (delete_rule_logs id)
  unfolding delete_rule_logs
  Allows-delete_rule_logs id = total _ _ (λ t. fewer t _)

  -- The foreign keys of the row are checked.
  pub Allows-insert_log :
      (rule_key request_key : Option ℕ) (good : Bool) (response sent_at : Str)
      → Allows (IsConsistent c) (insert_log rule_key request_key good response sent_at)
  unfolding insert_log
  Allows-insert_log rule_key request_key good response sent_at =
      guarded _ _ _ (λ t found (r, s, x, l, a, k).
        let keys = both _ _ found in
        (
          r,
          s,
          x,
          record {
            numbered =
                IsNumbered-append (λ (row : NotificationLog). row.id) _ _ _ _ refl l.numbered;
            rule_keys =
                All-append _ _ _ l.rule_keys
                  (known-RefersTo (λ (row : NotificationRule). row.id) _ rule_key keys.0);
            request_keys =
                All-append _ _ _ l.request_keys
                  (known-RefersTo (λ (row : Request). row.id) _ request_key keys.1);
          },
          a,
          k,
        ))

  pub Allows-insert_audit :
      (action detail ip now : Str) → Allows (IsConsistent c) (insert_audit action detail ip now)
  unfolding insert_audit
  Allows-insert_audit action detail ip now = total _ _ (λ t (r, s, x, l, a, k).
      (r, s, x, l, IsNumbered-append (λ (e : AuditEntry). e.id) _ _ _ _ refl a, k))

  pub Allows-delete_old_audit :
      (boundary : Str) → Allows (IsConsistent c) (delete_old_audit boundary)
  unfolding delete_old_audit
  Allows-delete_old_audit boundary = total _ _ (λ t (r, s, x, l, a, k).
      (r, s, x, l, IsNumbered-filter (λ (e : AuditEntry). e.id) _ _ _ _ a, k))

  pub Allows-insert_denied :
      (jti expires_at : Str) → Allows (IsConsistent c) (insert_denied jti expires_at)
  unfolding insert_denied
  Allows-insert_denied jti expires_at = unguarded _ _ _ (λ t free h. h)

  pub Allows-delete_expired : (now : Str) → Allows (IsConsistent c) (delete_expired now)
  unfolding delete_expired
  Allows-delete_expired now = total _ _ (λ t h. h)

  -- What is written under the retention's key has been checked.
  pub Keeps-write_setting :
      (key value : Str) → IsSetting (key, value) → Keeps (IsConsistent c) (write_setting key value)
  unfolding write_setting
  Keeps-write_setting key value h = Keeps-exec _ (
      total _ _
        (λ t (r, s, x, l, a, k). (r, s, x, l, a, IsSetting-put_setting key value t.settings h k)))

  pub Keeps-write_other :
      (key value : Str)
      → str_eq key (codes "retention_days") ≡ false
      → Keeps (IsConsistent c) (write_setting key value)
  Keeps-write_other key value other =
      Keeps-write_setting key value (λ same. ground (arith, other, same))

  pub Allows-update_auth :
      (console : Console) (hash now : Str) → Allows (IsConsistent c) (update_auth console hash now)
  unfolding update_auth
  Allows-update_auth console hash now = total _ _ (λ t h. h)

  pub Allows-insert_auth : (hash now : Str) → Allows (IsConsistent c) (insert_auth hash now)
  unfolding insert_auth
  Allows-insert_auth hash now = record {
    then_holds = λ t t' b e h. subst (IsConsistent c) (sym (only_auth hash now t t' b e)) h;
  }

pub ruleset consistency_rules = (
  Allows-delete_logs, Allows-keep_last_logs, Allows-delete_rule_logs, Allows-insert_log,
  Allows-insert_audit, Allows-delete_old_audit, Allows-insert_denied, Allows-delete_expired,
  Allows-update_auth, Allows-insert_auth,
)
