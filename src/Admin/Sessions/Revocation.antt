-- ===== src/Admin/Sessions/Revocation.antt =====
-- Which sessions end: handleLogout and handleChangePassword of internal/admin/handlers_auth.go
-- against currentClaims of internal/admin/admin.go.
use ooblivion.Shared.{
  ◌≡◌, ◌≢◌, refl, Bool-cases, ◌∙◌, arith, ℕ, suc, ◌<◌, max_int64, ℤ, pos, Str, codes, wrap64,
  str_eq_refl, atoi, itoa, true, false, Option, some, ◌⊎◌, inl, inr, [], Option-cases,
}
use ooblivion.Shared.Digits.{atoi-itoa}
use ooblivion.Exec.{Result, ok, err}
use ooblivion.Db.{World, exec, query, query_row, faulty, answered}
use ooblivion.Db.Audit.{insert_audit}
use ooblivion.Http.{HttpRequest, cookie}
use ooblivion.Auth.Denylist.{insert_denied, is_denied, denylist_add, denylist_check}
use ooblivion.Auth.Tokens.{Claims, IsReadable, parse_jwt-parse_jwt}
use ooblivion.Scheduler.Settings.{
  put_setting, write_setting, setting-put_setting, read_value, read_setting,
}
use ooblivion.Capture.Saving.{healthy}
use ooblivion.Admin.{Reply, log_audit}
use ooblivion.Admin.Sessions.{
  Console, cookie_name, session_claims_of, current_claims, checked_claims, versioned, token_version,
  eq_ℤ, stored_hash,
}
use ooblivion.Admin.Sessions.Accounts.{
  change_password, revoke, refuse, new_hash_for, put_hash, update_auth, next_version,
}

pub result-cases :
    {E A : Type 0} (x : Result E A) → ((a : A) × (x ≡ ok a)) ⊎ ((e : E) × (x ≡ err e))
result-cases (ok a) = inl (a, refl)
result-cases (err e) = inr (e, refl)

-- The version that a session must have.
abbrev pub version_of : World → ℤ
version_of w = (atoi (read_value (codes "token_version") (healthy w))).0

pub version_of-settings :
    (w w' : World) → w.db.settings ≡ w'.db.settings → version_of w ≡ version_of w'
unfolding read_value query_row faulty
version_of-settings w w' e = ground arith

module _ (c : Console) (r : HttpRequest) (now : ℕ) (w : World) (claims : Claims) where
  -- The token of a session can be read, has the version of the database, and is not on the
  -- denylist.
  pub current_claims_ok :
      (current_claims c r now (healthy w)).0 ≡ ok claims
      → (session_claims_of c r now ≡ some claims)
        × (eq_ℤ claims.ver (version_of w) ≡ true)
        × (is_denied claims.id w.db ≡ false)
  unfolding current_claims checked_claims versioned token_version denylist_check query faulty
      answered read_setting read_value query_row
  current_claims_ok h = ground arith

-- The version that currentClaims reads behind the query for the denylist, where a query that fails
-- gives zero.
abbrev read_version : World → ℤ
read_version v = (atoi (read_value (codes "token_version") (answered v))).0

read_version-cases :
    (v : World) → (read_version v ≡ version_of v) ⊎ ((read_version v ≡ pos 0) × (v.faults ≢ []))
unfolding read_value query_row
read_version-cases v = elim (Bool-cases (faulty (answered v).faults)) [
  | inl fails ↦ inr (
    unfold atoi in ground (arith, fails),
    λ calm. unfold faulty answered in ground (arith, fails, calm),
  )
  | inr answers ↦ inl (unfold faulty answered in ground (arith, answers))
]

module _ (c : Console) (r : HttpRequest) (now : ℕ) (v : World) (claims : Claims) where
  -- Whatever fails, the token of a session can be read and has the version that was read.
  current_claims_read :
      (current_claims c r now v).0 ≡ ok claims
      → (session_claims_of c r now ≡ some claims) × (eq_ℤ claims.ver (read_version v) ≡ true)
  unfolding current_claims checked_claims versioned token_version denylist_check query read_setting
      read_value
  current_claims_read h = ground arith

-- What the cookie of a request says does not change with time.
pub session_claims-same :
    (c : Console) (visit : HttpRequest) (earlier later : ℕ) (one two : Claims)
    → IsReadable c.tokens
    → session_claims_of c visit earlier ≡ some one
    → session_claims_of c visit later ≡ some two
    → two ≡ one
unfolding session_claims_of
session_claims-same c visit earlier later one two readable h k =
    elim (Option-cases (cookie visit cookie_name)) [
      | inl missing ↦ ground (arith, missing)
      | inr (text, e) ↦
          parse_jwt-parse_jwt c.tokens c.secret text readable earlier later one two
            (ground (arith, e)) (ground (arith, e))
    ]

module _ (c : Console) (r : HttpRequest) (now : ℕ) where
  -- Up to the new hash only the audit log changes.
  new_hash_for-settings :
      (body : Option (Str × Str)) (random : Option Str) (w : World)
      → ((new_hash_for c r body random now (healthy w)).1.faults ≡ [])
        × ((new_hash_for c r body random now (healthy w)).1.db.settings ≡ w.db.settings)
  unfolding new_hash_for stored_hash refuse log_audit exec query_row faulty answered insert_audit
  new_hash_for-settings body random w = ground arith

  -- From the new hash on the version goes up by one.
  put_hash-settings :
      (new_hash : Str) (n : ℕ) (w : World)
      → w.faults ≡ []
      → version_of w ≡ pos n
      → n < max_int64
      → ((put_hash c r now new_hash w).1.faults ≡ [])
        × ((put_hash c r now new_hash w).1.db.settings
            ≡ put_setting (codes "token_version") (itoa (pos (suc n))) w.db.settings)
  unfolding put_hash update_auth token_version next_version revoke log_audit exec query_row faulty
      answered read_setting read_value write_setting denylist_add insert_denied insert_audit wrap64
  put_hash-settings new_hash n w calm v small = ground arith

  -- A successful change of the password raises the version by one.
  changed_version :
      (body : Option (Str × Str)) (random : Option Str) (n : ℕ) (w : World) (reply : Reply)
      → version_of w ≡ pos n
      → n < max_int64
      → (change_password c r body random now (healthy w)).0 ≡ ok reply
      → version_of (change_password c r body random now (healthy w)).1 ≡ pos (suc n)
  unfolding change_password read_value query_row faulty
  changed_version body random n w reply v small h =
      let before = new_hash_for c r body random now (healthy w) in
      let (calm, same) = new_hash_for-settings body random w in
      elim (result-cases before.0) [
        | inl (new_hash, e) ↦
            let next =
              put_hash-settings new_hash n before.1 calm (version_of-settings before.1 w same ∙ v)
                small in
            ground (
              arith,
              e,
              next,
              setting-put_setting (codes "token_version") (itoa (pos (suc n)))
                  (codes "token_version") before.1.db.settings,
              str_eq_refl (codes "token_version"),
              atoi-itoa (suc n) small,
            )
        | inr (answer, e) ↦ ground (arith, e)
      ]

  -- With readable tokens and a token version from 0 to 2^63 - 2, after a password change without
  -- faults that succeeds, no request whose token was admitted before is admitted, at whatever
  -- instant, in any world that has the new version, provided that no statement fails in that world
  -- or that the version before the change was not 0.
  pub change_password-current_claims :
      (body : Option (Str × Str)) (random : Option Str) (n : ℕ) (w v : World) (reply : Reply)
      → IsReadable c.tokens
      → version_of w ≡ pos n
      → n < max_int64
      → (change_password c r body random now (healthy w)).0 ≡ ok reply
      → version_of v ≡ version_of (change_password c r body random now (healthy w)).1
      → (v.faults ≡ []) ⊎ (0 < n)
      → (visit : HttpRequest) (earlier later : ℕ) (claims : Claims)
      → (current_claims c visit earlier (healthy w)).0 ≡ ok claims
      → (current_claims c visit later v).0 ≡ err tt
  change_password-current_claims body random n w v reply readable old small h new calm visit earlier
        later claims session =
      elim (result-cases (current_claims c visit later v).0) [
        | inl (again, e) ↦
            let (text, version, _) = current_claims_ok c visit earlier w claims session in
            let (text', version') = current_claims_read c visit later v again e in
            ground (
              arith,
              session_claims-same c visit earlier later claims again readable text text',
              changed_version body random n w reply old small h,
              read_version-cases v,
            )
        | inr (tt, e) ↦ e
      ]
