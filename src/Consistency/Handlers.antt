-- ===== src/Consistency/Handlers.antt =====
-- The handlers of internal/admin on scopes, rules, requests and settings keep the tables
-- consistent, whichever of their statements fail.
use ooblivion.Shared.{
  ℕ, ℤ, pos, negsuc, Str, codes, ◌≡◌, refl, arith, Bool, str_eq, true, false, Option, none, some,
  List, [], ◌∷◌,
}
use ooblivion.Shared.Digits.{atoi-itoa}
use ooblivion.Exec.{Exec, ◌>>=◌, ◌>>◌}
use ooblivion.Http.{HttpRequest}
use ooblivion.Db.{World}
use ooblivion.Db.Keeping.{Keeps, Keeps-pure, Keeps-raise, Keeps-or_else, Keeps-bind, Keeps-then}
use ooblivion.Scheduler.{Clock}
use ooblivion.Scheduler.Settings.{write_setting}
use ooblivion.Admin.{Reply, log_audit}
use ooblivion.Admin.Rules.{RulesLib, RulePayload, validate, valid_payload, error_or, finish}
use ooblivion.Admin.Rules.Scopes.{create_scope, put_scope, switch_scope, delete_scope}
use ooblivion.Admin.Rules.Notifications.{create_rule, put_rule, switch_rule, delete_rule}
use ooblivion.Admin.Requests
use ooblivion.Admin.Requests.{toggle_saved, delete_request, bulk_delete, flush_now}
use ooblivion.Admin.Settings.{
  SettingsBody, body_or, guard, put_settings, write_some, days_text, flag_text, in_range,
}
use ooblivion.Admin.Keeping.{Keeps-path_id}
use ooblivion.Consistency.{IsConsistent}
use ooblivion.Consistency.Effects.{Keeps-flush, handler_rules}
use ooblivion.Consistency.Rules.{
  Allows-insert_scope, Allows-update_scope, Allows-insert_rule, Allows-update_rule,
}
use ooblivion.Consistency.Logs.{Keeps-write_setting, Keeps-write_other}

module _ {c : RulesLib} where
  -- What follows the check of a payload may rely on it.
  Keeps-valid_payload :
      {A : Type 0} (body : Option RulePayload) (f : RulePayload → Exec World Reply A)
      → ((p : RulePayload) → validate c p ≡ none → Keeps (IsConsistent c) (f p))
      → Keeps (IsConsistent c) (valid_payload c body >>= f)
  unfolding valid_payload
  Keeps-valid_payload none f k = record { at = λ w h. h }
  Keeps-valid_payload (some p) f k = record { at = λ w h. kept (validate c p) refl w h }
    where
      kept :
          (o : Option Str)
          → validate c p ≡ o
          → (w : World) → IsConsistent c w.db
          → IsConsistent c ((error_or c p o >>= f) w).1.db
      kept none e w h = (k p e).at w h
      kept (some message) e w h = h

  pub Keeps-create_scope :
      (r : HttpRequest) (body : Option RulePayload) (now : ℕ)
      → Keeps (IsConsistent c) (create_scope c r body now)
  unfolding create_scope finish log_audit
  Keeps-create_scope r body now =
      Keeps-valid_payload body _ (λ p good. search (handler_rules, Allows-insert_scope) depth 16)

  pub Keeps-put_scope :
      (r : HttpRequest) (id : Str) (body : Option RulePayload) (now : ℕ)
      → Keeps (IsConsistent c) (put_scope c r id body now)
  unfolding put_scope finish log_audit
  Keeps-put_scope r id body now = Keeps-bind _ _ (Keeps-path_id id) (λ n.
      Keeps-valid_payload body _ (λ p good. search (handler_rules, Allows-update_scope) depth 16))

  pub Keeps-switch_scope :
      (r : HttpRequest) (id : Str) (now : ℕ) → Keeps (IsConsistent c) (switch_scope c r id now)
  unfolding switch_scope finish log_audit
  Keeps-switch_scope r id now = search handler_rules depth 16

  pub Keeps-delete_scope :
      (r : HttpRequest) (id : Str) (now : ℕ) → Keeps (IsConsistent c) (delete_scope c r id now)
  unfolding delete_scope finish log_audit
  Keeps-delete_scope r id now = search handler_rules depth 16

  pub Keeps-create_rule :
      (r : HttpRequest) (body : Option RulePayload) (now : ℕ)
      → Keeps (IsConsistent c) (create_rule c r body now)
  unfolding create_rule finish log_audit
  Keeps-create_rule r body now =
      Keeps-valid_payload body _ (λ p good. search (handler_rules, Allows-insert_rule) depth 16)

  pub Keeps-put_rule :
      (r : HttpRequest) (id : Str) (body : Option RulePayload) (now : ℕ)
      → Keeps (IsConsistent c) (put_rule c r id body now)
  unfolding put_rule finish log_audit
  Keeps-put_rule r id body now = Keeps-bind _ _ (Keeps-path_id id) (λ n.
      Keeps-valid_payload body _ (λ p good. search (handler_rules, Allows-update_rule) depth 16))

  pub Keeps-switch_rule :
      (r : HttpRequest) (id : Str) (now : ℕ) → Keeps (IsConsistent c) (switch_rule c r id now)
  unfolding switch_rule finish log_audit
  Keeps-switch_rule r id now = search handler_rules depth 16

  pub Keeps-delete_rule :
      (r : HttpRequest) (id : Str) (now : ℕ) → Keeps (IsConsistent c) (delete_rule c r id now)
  unfolding delete_rule finish log_audit
  Keeps-delete_rule r id now = search handler_rules depth 16

  pub Keeps-toggle_saved :
      (clock : Clock) (trim : Str → Str) (r : HttpRequest) (id : Str) (saved : Bool) (now : ℕ)
      → Keeps (IsConsistent c) (toggle_saved clock trim r id saved now)
  unfolding toggle_saved Requests.finish log_audit
  Keeps-toggle_saved clock trim r id saved now = search handler_rules depth 16

  pub Keeps-delete_request :
      (clock : Clock) (trim : Str → Str) (r : HttpRequest) (id : Str) (now : ℕ)
      → Keeps (IsConsistent c) (delete_request clock trim r id now)
  unfolding delete_request Requests.finish log_audit
  Keeps-delete_request clock trim r id now = search handler_rules depth 16

  pub Keeps-bulk_delete :
      (clock : Clock) (trim : Str → Str) (r : HttpRequest) (body : Option (List ℤ)) (now : ℕ)
      → Keeps (IsConsistent c) (bulk_delete clock trim r body now)
  unfolding bulk_delete Requests.finish log_audit
  Keeps-bulk_delete clock trim r none now = record { at = λ w h. h }
  Keeps-bulk_delete clock trim r (some []) now = record { at = λ w h. h }
  Keeps-bulk_delete clock trim r (some (id ∷ ids)) now = search handler_rules depth 16

  pub Keeps-flush_now :
      (clock : Clock) (trim : Str → Str) (default_days : ℤ) (r : HttpRequest) (now : ℕ)
      → Keeps (IsConsistent c) (flush_now clock trim default_days r now)
  unfolding flush_now
  Keeps-flush_now clock trim default_days r now = search (handler_rules, Keeps-flush) depth 16

  Keeps-write_some :
      (key : Str) (value : Option Str)
      → ((v : Str) → Keeps (IsConsistent c) (write_setting key v))
      → Keeps (IsConsistent c) (write_some key value)
  Keeps-write_some key none k = Keeps-pure tt
  Keeps-write_some key (some v) k = Keeps-or_else _ _ (k v)

  -- The retention is in range, so what is written reads as such a number.
  Keeps-write_days :
      (days : Option ℤ)
      → in_range days ≡ true
      → Keeps (IsConsistent c) (write_some (codes "retention_days") (days_text days))
  Keeps-write_days none h = Keeps-pure tt
  Keeps-write_days (some (pos n)) h =
      Keeps-or_else _ _ (Keeps-write_setting _ _ (λ same. ground (arith, h, atoi-itoa n)))
  Keeps-write_days (some (negsuc n)) h = ground (arith, h)

  Keeps-body : (body : Option SettingsBody) → Keeps (IsConsistent c) (body_or body)
  Keeps-body none = Keeps-raise _
  Keeps-body (some b) = Keeps-pure b

  -- What follows a guard may rely on it.
  Keeps-guard :
      {A : Type 0} (b : Bool) (refusal : Reply) (n : Exec World Reply A)
      → (b ≡ true → Keeps (IsConsistent c) n)
      → Keeps (IsConsistent c) (guard b refusal >> n)
  Keeps-guard true refusal n k = record { at = λ w h. (k refl).at w h }
  Keeps-guard false refusal n k = record { at = λ w h. h }

  pub Keeps-put_settings :
      (clock : Clock) (trim : Str → Str) (r : HttpRequest) (body : Option SettingsBody) (now : ℕ)
      → Keeps (IsConsistent c) (put_settings clock trim r body now)
  unfolding put_settings log_audit str_eq
  Keeps-put_settings clock trim r body now = Keeps-bind _ _ (Keeps-body body) (λ b.
      Keeps-guard _ _ _ (λ good.
        Keeps-then _ _
          (Keeps-write_some (codes "public_url") b.public_url (λ v. Keeps-write_other _ v refl))
          (Keeps-then _ _ (Keeps-write_days b.retention_days good) (
            Keeps-then _ _
              (Keeps-write_some (codes "auto_flush_enabled") (flag_text b.auto_flush_enabled)
                (λ v. Keeps-write_other _ v refl))
              (search handler_rules depth 16)))))
