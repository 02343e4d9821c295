-- ===== src/Admin/Sessions/Guard.antt =====
-- The middleware `auth` of internal/admin/admin.go, and handleLogin and handleLogout of
-- internal/admin/handlers_auth.go against it.
use ooblivion.Shared.{
  ◌≡◌, arith, ℕ, pos, Str, codes, str_eq, str_eq_refl, atoi, has_prefix, true, false, some, [], ◌∷◌,
  inl, inr, if◌then◌else◌,
}
use ooblivion.Shared.Select.{any-append}
use ooblivion.Exec.{ok, err}
use ooblivion.Db.{World, exec, query, query_row, faulty, answered}
use ooblivion.Db.Audit.{insert_audit}
use ooblivion.Http.{HttpRequest, cookie}
use ooblivion.Auth.Denylist.{insert_denied, is_denied, denylist_add, denylist_check}
use ooblivion.Auth.Tokens.{Claims, IsReadable}
use ooblivion.Scheduler.Settings.{read_setting}
use ooblivion.Capture.Saving.{healthy}
use ooblivion.Admin.{Handler, problem_with, log_audit}
use ooblivion.Admin.Sessions.{
  Console, cookie_name, session_claims_of, current_claims, current_claims-some, checked_claims,
  versioned, token_version, auth, is_api, login_redirect,
}
use ooblivion.Admin.Sessions.Accounts.{logout, revoke}
use ooblivion.Admin.Sessions.Revocation.{result-cases, current_claims_ok, session_claims-same}

module _ (c : Console) where
  -- Where currentClaims fails, whatever the reason, a handler behind the middleware does not run:
  -- the answer is 401 under /admin/api and a redirect to the login page elsewhere, and the
  -- database is as it was.
  pub auth_lem :
      (next : Handler) (r : HttpRequest) (now : ℕ) (w : World)
      → (current_claims c r now w).0 ≡ err tt
      → ((auth c next r now w).0
          ≡ err (
              if has_prefix r.path (codes "/admin/api")
              then problem_with 401 (codes "unauthorized")
              else login_redirect c))
        × ((auth c next r now w).1.db ≡ w.db)
  unfolding auth current_claims checked_claims is_api versioned token_version denylist_check query
      read_setting query_row answered
  auth_lem next r now w h = ground arith

  -- After a logout without faults the token is on the denylist.
  logout-is_denied :
      (r : HttpRequest) (now expiry : ℕ) (w : World) (claims : Claims)
      → session_claims_of c r now ≡ some claims
      → claims.expires_at ≡ some expiry
      → is_denied claims.id (logout c r now (healthy w)).1.db ≡ true
  unfolding logout revoke log_audit exec faulty answered denylist_add insert_denied insert_audit
      is_denied
  logout-is_denied r now expiry w claims h e = ground (
    arith,
    any-append (λ (row : Str × Str). str_eq row.0 claims.id) w.db.jwt_denylist
        (claims.id, c.tokens.stamp_date expiry) (str_eq_refl claims.id),
  )

  -- With readable tokens, after a logout without faults whose cookie holds a readable token that
  -- expires, no request that carries the same token is admitted, at whatever instant.
  pub logout-current_claims :
      (r visit : HttpRequest) (now expiry later : ℕ) (w : World) (claims : Claims)
      → IsReadable c.tokens
      → session_claims_of c r now ≡ some claims
      → claims.expires_at ≡ some expiry
      → cookie visit cookie_name ≡ cookie r cookie_name
      → (current_claims c visit later (healthy (logout c r now (healthy w)).1)).0 ≡ err tt
  logout-current_claims r visit now expiry later w claims readable h e same =
      let after = (logout c r now (healthy w)).1 in
      elim (result-cases (current_claims c visit later (healthy after)).0) [
        | inl (again, admitted) ↦
            let (text, _, free) = current_claims_ok c visit later after again admitted in
            ground (
              arith,
              session_claims-same c visit now later claims again readable (same_cookie h) text,
              logout-is_denied r now expiry w claims h e,
            )
        | inr (e, rejected) ↦ rejected
      ]
    where
      same_cookie :
          session_claims_of c r now ≡ some claims → session_claims_of c visit now ≡ some claims
      same_cookie k = unfold session_claims_of in ground (arith, same)

  -- Where the query for the token version fails, a readable token of version 0 that names the
  -- admin and is not denied is admitted, whatever version the database holds.
  pub current_claims_fault :
      (r : HttpRequest) (now : ℕ) (w : World) (claims : Claims)
      → session_claims_of c r now ≡ some claims
      → claims.ver ≡ pos 0
      → claims.subject ≡ codes "admin"
      → is_denied claims.id w.db ≡ false
      → (current_claims c r now (record w { faults = false ∷ true ∷ [] })).0 ≡ ok claims
  unfolding checked_claims versioned token_version denylist_check query read_setting query_row
      faulty answered is_denied atoi
  current_claims_fault r now w claims h version subject free = ground (
    arith,
    current_claims-some c r now (record w { faults = false ∷ true ∷ [] }) claims h,
    str_eq_refl (codes "admin"),
  )
