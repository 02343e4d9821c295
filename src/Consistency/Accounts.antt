-- ===== src/Consistency/Accounts.antt =====
-- The handlers of internal/admin/handlers_auth.go keep the tables consistent.
use ooblivion.Shared.{ℕ, Str, str_eq, codes, refl, Option, none, some}
use ooblivion.Exec.{ignore, pure}
use ooblivion.Http.{HttpRequest}
use ooblivion.Db.{World}
use ooblivion.Db.Keeping.{Keeps, Keeps-pure}
use ooblivion.Auth.Denylist.{denylist_add}
use ooblivion.Auth.Tokens.{Claims}
use ooblivion.Scheduler.Settings.{write_setting}
use ooblivion.Admin.{Reply, log_audit}
use ooblivion.Admin.Rules.{RulesLib}
use ooblivion.Admin.Sessions.{Console, session_claims_of}
use ooblivion.Admin.Sessions.Accounts.{expiry_text, revoke, logout, put_hash, change_password}
use ooblivion.Consistency.{IsConsistent}
use ooblivion.Consistency.Effects.{handler_rules}
use ooblivion.Admin.Keeping.Sessions.{Keeps-new_hash_for, Keeps-token_version}
use ooblivion.Consistency.Logs.{Keeps-write_other, Allows-insert_audit}

module _ {c : RulesLib} (console : Console) where
  Keeps-revoke : (r : HttpRequest) (now : ℕ) → Keeps (IsConsistent c) (revoke console r now)
  unfolding revoke denylist_add
  Keeps-revoke r now = revoked (session_claims_of console r now)
    where
      listed :
          (id : Str) (o : Option Str)
          → Keeps (IsConsistent c) (elim o [
            | none ↦ pure {S = World} {E = Reply} tt
            | some expiry ↦ ignore (denylist_add id expiry)
          ])
      listed id none = Keeps-pure tt
      listed id (some expiry) = search handler_rules depth 8

      revoked :
          (o : Option Claims)
          → Keeps (IsConsistent c) (elim o [
            | none ↦ pure {S = World} {E = Reply} tt
            | some claims ↦ elim (expiry_text console claims.expires_at) [
              | none ↦ pure tt
              | some expiry ↦ ignore (denylist_add claims.id expiry)
            ]
          ])
      revoked none = Keeps-pure tt
      revoked (some claims) = listed claims.id (expiry_text console claims.expires_at)

  pub Keeps-logout : (r : HttpRequest) (now : ℕ) → Keeps (IsConsistent c) (logout console r now)
  unfolding logout log_audit
  Keeps-logout r now = search (handler_rules, Keeps-revoke) depth 20

  Keeps-version : (text : Str) → Keeps (IsConsistent c) (write_setting (codes "token_version") text)
  unfolding str_eq
  Keeps-version text = Keeps-write_other _ text refl

  Keeps-put_hash :
      (r : HttpRequest) (now : ℕ) (hash : Str)
      → Keeps (IsConsistent c) (put_hash console r now hash)
  unfolding put_hash log_audit
  Keeps-put_hash r now hash =
      search (handler_rules, Keeps-token_version, Keeps-revoke, Keeps-version) depth 20

  pub Keeps-change_password :
      (r : HttpRequest) (body : Option (Str × Str)) (random : Option Str) (now : ℕ)
      → Keeps (IsConsistent c) (change_password console r body random now)
  unfolding change_password
  Keeps-change_password r body random now =
      search (handler_rules, Keeps-put_hash, Keeps-new_hash_for Allows-insert_audit console) depth
        20
