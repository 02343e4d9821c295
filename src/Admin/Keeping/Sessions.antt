-- ===== src/Admin/Keeping/Sessions.antt =====
-- The check of a session keeps every invariant of the tables, and a login those that allow an entry
-- of the audit log: internal/admin/admin.go and internal/admin/handlers_auth.go.
use ooblivion.Shared.{ℕ, Str, codes, arith, Bool, if◌then◌else◌, true, false, Option, none, some}
use ooblivion.Exec.{ok, err, Result, raise}
use ooblivion.Http.{HttpRequest}
use ooblivion.Db.{Tables, Error, driver, constraint, no_rows, panic}
use ooblivion.Db.Keeping.{Allows, Keeps, Keeps-pure, Keeps-raise, Keeps-bind, Keeps-try}
use ooblivion.Db.Audit.{insert_audit}
use ooblivion.Auth.Denylist.{denylist_check}
use ooblivion.Auth.Tokens.{Claims}
use ooblivion.Admin.{Reply, Handler, problem_with, log_audit}
use ooblivion.Admin.Sessions.{
  Console, stored_hash, token_version, versioned, checked_claims, current_claims, check_all, auth,
  is_api, login_redirect,
}
use ooblivion.Admin.Sessions.Accounts.{
  body_or, token_or, guard, limit, refuse, checked_hash, login, new_hash_for,
}
use ooblivion.Admin.Keeping.{read_rules}

module _ {P : Tables → Type 0} where
  pub Keeps-stored_hash : Keeps (P) stored_hash
  unfolding stored_hash
  Keeps-stored_hash = search read_rules depth 16

  pub Keeps-token_version : {E : Type 0} → Keeps (P) (token_version {E = E})
  unfolding token_version
  Keeps-token_version = search read_rules depth 16

module _ {P : Tables → Type 0} (console : Console) where
  pub Keeps-limit : (ip : Str) (now : ℕ) → Keeps (P) (limit console ip now)
  unfolding limit
  Keeps-limit ip now = record { at = λ w h. ground (arith, h) }

  pub Keeps-body : {A : Type 0} (body : Option A) → Keeps (P) (body_or console body)
  Keeps-body none = Keeps-raise _
  Keeps-body (some a) = Keeps-pure a

  pub Keeps-token : (token : Option Str) → Keeps (P) (token_or console token)
  Keeps-token none = Keeps-raise _
  Keeps-token (some token) = Keeps-pure token

  pub Keeps-guard : (b : Bool) (refusal : Reply) → Keeps (P) (guard console b refusal)
  Keeps-guard true refusal = Keeps-pure tt
  Keeps-guard false refusal = Keeps-raise _

  -- The check of the session.
  Keeps-checked_claims : (claims : Claims) → Keeps (P) (checked_claims console claims)
  unfolding checked_claims versioned denylist_check
  Keeps-checked_claims claims = search (read_rules, Keeps-token_version) depth 20

  pub Keeps-check_all : (o : Option Claims) → Keeps (P) (check_all console o)
  Keeps-check_all none = Keeps-raise _
  Keeps-check_all (some claims) = Keeps-checked_claims claims

  pub Keeps-auth :
      (next : Handler) (r : HttpRequest) (now : ℕ)
      → Keeps (P) next
      → Keeps (P) (auth console next r now)
  unfolding auth current_claims
  Keeps-auth next r now k =
      Keeps-bind _ _ (Keeps-try _ (Keeps-check_all _)) (λ session. decided session)
    where
      decided :
          (session : Result (Unit {0}) Claims)
          → Keeps (P) (elim session [
            | ok claims ↦ next
            | err e ↦
                if is_api console r
                then raise (problem_with 401 (codes "unauthorized"))
                else raise (login_redirect console)
          ])
      decided (ok claims) = k
      decided (err e) = search read_rules depth 16

module _ {P : Tables → Type 0}
    (audits : (action detail ip now : Str) → Allows P (insert_audit action detail ip now))
    (console : Console) where
  pub Keeps-refuse :
      (action detail message ip : Str) (now : ℕ)
      → Keeps (P) (refuse console action detail message ip now)
  unfolding refuse log_audit
  Keeps-refuse action detail message ip now = search (read_rules, audits) depth 16

  pub Keeps-checked_hash :
      (password ip : Str) (now : ℕ) (found : Result Error Str)
      → Keeps (P) (checked_hash console password ip now found)
  unfolding checked_hash
  Keeps-checked_hash password ip now (ok hash) = search (read_rules, Keeps-refuse) depth 16
  Keeps-checked_hash password ip now (err no_rows) = search (read_rules, Keeps-refuse) depth 16
  Keeps-checked_hash password ip now (err driver) = search read_rules depth 16
  Keeps-checked_hash password ip now (err constraint) = search read_rules depth 16
  Keeps-checked_hash password ip now (err panic) = search read_rules depth 16

  pub Keeps-login :
      (r : HttpRequest) (body random : Option Str) (now : ℕ)
      → Keeps (P) (login console r body random now)
  unfolding login log_audit
  Keeps-login r body random now =
      search
        (
          read_rules,
          audits,
          Keeps-limit console,
          Keeps-token_version,
          Keeps-body console,
          Keeps-token console,
          Keeps-checked_hash,
        )
        depth 20

  pub Keeps-new_hash_for :
      (r : HttpRequest) (body : Option (Str × Str)) (random : Option Str) (now : ℕ)
      → Keeps (P) (new_hash_for console r body random now)
  unfolding new_hash_for
  Keeps-new_hash_for r body random now =
      search
        (read_rules, Keeps-body console, Keeps-token console, Keeps-guard console, Keeps-refuse)
        depth 20
