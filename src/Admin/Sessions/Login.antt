-- ===== src/Admin/Sessions/Login.antt =====
-- handleLogin of internal/admin/handlers_auth.go against currentClaims of
-- internal/admin/admin.go.
use ooblivion.Shared.{
  ◌≡◌, refl, sym, arith, ℕ, ◌<◌, pos, Str, codes, str_eq_refl, false, Option, some, inl, inr,
  Option-cases,
}
use ooblivion.Exec.{ok}
use ooblivion.Db.{World, exec, query, query_row, faulty, answered}
use ooblivion.Db.Audit.{insert_audit}
use ooblivion.Http.{HttpRequest, cookie}
use ooblivion.Auth.Denylist.{is_denied, denylist_check}
use ooblivion.Auth.Tokens.{
  Claims, IsReadable, issue_jwt, parse_jwt, parse_jwt-issue_jwt, session_claims, times, hour_ns,
}
use ooblivion.Scheduler.Settings.{read_setting, read_value}
use ooblivion.Capture.Saving.{healthy}
use ooblivion.Admin.{Reply, put, log_audit}
use ooblivion.Admin.Sessions.{
  Console, cookie_name, session_claims_of, current_claims, current_claims-some, checked_claims,
  versioned, token_version, eq_ℤ_refl, stored_hash, set_cookie,
}
use ooblivion.Admin.Sessions.Accounts.{login, limit, checked_hash, refuse}
use ooblivion.Admin.Sessions.Revocation.{version_of, version_of-settings}

module _ (c : Console) where
  -- A login changes neither the settings nor the denylist.
  login-db :
      (r : HttpRequest) (body : Option Str) (jti : Str) (now : ℕ) (w : World)
      → ((login c r body (some jti) now (healthy w)).1.db.settings ≡ w.db.settings)
        × ((login c r body (some jti) now (healthy w)).1.db.jwt_denylist ≡ w.db.jwt_denylist)
  unfolding login limit stored_hash checked_hash refuse token_version log_audit exec query_row
      read_setting faulty answered insert_audit
  login-db r body jti now w = ground arith

  login-issue_jwt :
      (r : HttpRequest) (body : Option Str) (jti : Str) (now : ℕ) (w : World) (reply : Reply)
      → (login c r body (some jti) now (healthy w)).0 ≡ ok reply
      → (token : Str) × (issue_jwt c.tokens c.secret c.session_ttl (version_of w) now (some jti)
          ≡ some token)
        × (reply.session ≡ put (set_cookie c r token))
  unfolding login limit stored_hash checked_hash refuse token_version log_audit exec query_row
      read_setting read_value faulty answered insert_audit
  login-issue_jwt r body jti now w reply h =
      elim (Option-cases
        (issue_jwt c.tokens c.secret c.session_ttl (version_of w) now (some jti))) [
          | inl failed ↦ ground (arith, failed)
          | inr (token, issued) ↦ (token, issued, ground (arith, issued))
        ]

  current_claims_intro :
      (r : HttpRequest) (now : ℕ) (w : World) (claims : Claims)
      → session_claims_of c r now ≡ some claims
      → claims.ver ≡ version_of w
      → claims.subject ≡ codes "admin"
      → is_denied claims.id w.db ≡ false
      → (current_claims c r now (healthy w)).0 ≡ ok claims
  unfolding checked_claims versioned token_version denylist_check query read_setting query_row
      faulty answered is_denied read_value
  current_claims_intro r now w claims h version subject free = ground (
    arith,
    current_claims-some c r now (healthy w) claims h,
    str_eq_refl (codes "admin"),
    eq_ℤ_refl (version_of w),
  )

  -- A readable token of the present version is admitted in every world with the same settings and
  -- the same denylist.
  pub issued-current_claims :
      (w after : World) (jti : Str) (now : ℕ) (visit : HttpRequest) (later : ℕ) (token : Str)
      → after.db.settings ≡ w.db.settings
      → after.db.jwt_denylist ≡ w.db.jwt_denylist
      → is_denied jti w.db ≡ false
      → cookie visit cookie_name ≡ some token
      → parse_jwt c.tokens later c.secret token
        ≡ some (session_claims c.tokens c.session_ttl (version_of w) now jti)
      → (current_claims c visit later (healthy after)).0
        ≡ ok (session_claims c.tokens c.session_ttl (version_of w) now jti)
  issued-current_claims w after jti now visit later token settings denylist free carries parsed =
      current_claims_intro visit later after
        (session_claims c.tokens c.session_ttl (version_of w) now jti)
        (unfold session_claims_of in ground (arith, carries, parsed))
        (unfold session_claims in sym (version_of-settings after w settings))
        (unfold session_claims in refl)
        (unfold session_claims in unfold is_denied in rw denylist free)

  -- With readable tokens and a new identifier that is not denied, a login without faults that
  -- succeeds sets a cookie whose token is admitted from then on, in the world that the login
  -- leaves, until it expires.
  pub login-current_claims :
      (r : HttpRequest) (body : Option Str) (jti : Str) (now : ℕ) (w : World) (reply : Reply)
      → IsReadable c.tokens
      → is_denied jti w.db ≡ false
      → (login c r body (some jti) now (healthy w)).0 ≡ ok reply
      → (token : Str) × (reply.session ≡ put (set_cookie c r token))
        × ((visit : HttpRequest) (later : ℕ)
            → cookie visit cookie_name ≡ some token
            → c.tokens.numeric_date later (pos 0)
              < c.tokens.numeric_date now (times hour_ns c.session_ttl)
            → (current_claims c visit later
                (healthy (login c r body (some jti) now (healthy w)).1)).0
              ≡ ok (session_claims c.tokens c.session_ttl (version_of w) now jti))
  login-current_claims r body jti now w reply readable free h =
      let (token, issued, set) = login-issue_jwt r body jti now w reply h in
      (
        token,
        set,
        λ visit later carries fresh.
            issued-current_claims w (login c r body (some jti) now (healthy w)).1 jti now visit
              later token (login-db r body jti now w).0 (login-db r body jti now w).1 free carries
              (parse_jwt-issue_jwt c.tokens c.secret token readable c.session_ttl (version_of w) now
                later jti issued fresh),
      )
