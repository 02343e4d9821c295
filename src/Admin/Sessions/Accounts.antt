-- ===== src/Admin/Sessions/Accounts.antt =====
-- handleLogin, handleLogout and handleChangePassword of internal/admin/handlers_auth.go.
use ooblivion.Shared.{
  ℕ, zero, suc, ◌+◌, ℤ, pos, negsuc, wrap64, Str, codes, itoa, Bool, true, false, Option, none,
  some, leb, length, if◌then◌else◌,
}
use ooblivion.Exec.{Result, ok, err, Exec, pure, raise, ◌>>=◌, ◌>>◌, or_else, try, ignore}
use ooblivion.Db.{Tables, World, Error, driver, constraint, no_rows, panic, exec}
use ooblivion.Http.{HttpRequest}
use ooblivion.Http.ClientIp.{auth_client_ip}
use ooblivion.Auth.RateLimiter.{RateLimiter, allow}
use ooblivion.Auth.Denylist.{denylist_add}
use ooblivion.Auth.Passwords.{hash_password}
use ooblivion.Auth.Tokens.{issue_jwt}
use ooblivion.Scheduler.Settings.{write_setting}
use ooblivion.Admin.{success, put, Reply, Handler, problem_with, server_error, log_audit}
use ooblivion.Admin.Sessions.{
  Console, set_cookie, clear_cookie, stored_hash, verify_hash, token_version, session_claims_of,
}

module _ (c : Console) where
  -- the limiter of New: five attempts in ten minutes
  abbrev limiter_of : World → RateLimiter
  limiter_of w = record { attempts = w.attempts; window = 600000000000; max = 5 }

  unfoldable pub limit : Str → ℕ → Exec World Reply (Unit {0})
  unfolding allow
  limit ip now w =
      let (limiter, good) = allow (limiter_of w) ip now in
      let next = record w { attempts = limiter.attempts } in
      if good then (ok tt, next) else (err (problem_with 429 (codes "too many attempts")), next)

  unfoldable pub refuse : Str → Str → Str → Str → ℕ → Exec World Reply Str
  unfolding log_audit
  refuse action detail message ip now = do
    log_audit c.clock action detail ip now
    raise (problem_with 401 message)

  -- what handleLogin does with the stored hash
  unfoldable pub checked_hash : Str → Str → ℕ → Result Error Str → Exec World Reply Str
  unfolding refuse verify_hash
  checked_hash password ip now (ok hash) =
      if verify_hash c.passwords hash password
      then pure hash
      else refuse (codes "login_failed") (codes "wrong password") (codes "invalid credentials") ip
          now
  checked_hash password ip now (err no_rows) =
      refuse (codes "login_failed") (codes "wrong password") (codes "invalid credentials") ip now
  checked_hash password ip now (err driver) = raise (server_error driver)
  checked_hash password ip now (err constraint) = raise (server_error constraint)
  checked_hash password ip now (err panic) = raise (server_error panic)

  abbrev pub body_or : {A : Type 0} → Option A → Exec World Reply A
  body_or none = raise (problem_with 400 (codes "invalid body"))
  body_or (some a) = pure a

  abbrev pub token_or : Option Str → Exec World Reply Str
  token_or none = raise (problem_with 500 (codes "server error"))
  token_or (some token) = pure token

  -- handleLogin; `random` is the new token's identifier
  unfoldable pub login : HttpRequest → Option Str → Option Str → ℕ → Handler
  unfolding auth_client_ip limit stored_hash checked_hash token_version issue_jwt set_cookie
      log_audit
  login r body random now = do
    limit (auth_client_ip c.trim_space r) now
    password ← body_or body
    found ← try stored_hash
    checked_hash password (auth_client_ip c.trim_space r) now found
    version ← token_version
    token ← token_or (issue_jwt c.tokens c.secret c.session_ttl version now random)
    log_audit c.clock (codes "login") (codes "admin logged in") (auth_client_ip c.trim_space r) now
    pure (record { status = 200; content = success; session = put (set_cookie c r token) })

  -- the denylist's entry for the cookie's token; a failure is dropped
  abbrev pub expiry_text : Option ℕ → Option Str
  expiry_text none = none
  expiry_text (some date) = some (c.tokens.stamp_date date)

  unfoldable pub revoke : HttpRequest → ℕ → Exec World Reply (Unit {0})
  unfolding session_claims_of denylist_add
  revoke r now = elim (session_claims_of c r now) [
    | none ↦ pure tt
    | some claims ↦ elim (expiry_text claims.expires_at) [
      | none ↦ pure tt
      | some expiry ↦ ignore (denylist_add claims.id expiry)
    ]
  ]

  abbrev pub signed_out : HttpRequest → Reply
  signed_out r = record { status = 200; content = success; session = put (clear_cookie c r) }

  -- handleLogout
  unfoldable pub logout : HttpRequest → ℕ → Handler
  unfolding revoke clear_cookie log_audit auth_client_ip
  logout r now = do
    revoke r now
    log_audit c.clock (codes "logout") (codes "admin logged out") (auth_client_ip c.trim_space r)
        now
    pure (signed_out r)

  -- UPDATE auth SET password_hash = ?, updated_at = ? WHERE id = 1
  unfoldable pub update_auth : Str → Str → Tables → Option (Unit {0} × Tables)
  update_auth hash now t = some (
    tt,
    record t {
      auth = elim t.auth [
        | none ↦ none
        | some row ↦ some (record row { password_hash = hash; updated_at = now })
      ];
    },
  )

  -- int addition of one
  unfoldable pub next_version : ℤ → ℤ
  next_version (pos n) = wrap64 (pos (n + 1))
  next_version (negsuc zero) = pos 0
  next_version (negsuc (suc n)) = negsuc n

  abbrev pub guard : Bool → Reply → Exec World Reply (Unit {0})
  guard true r = pure tt
  guard false r = raise r

  -- handleChangePassword up to the new hash; `random` is the new salt
  unfoldable pub new_hash_for :
      HttpRequest → Option (Str × Str) → Option Str → ℕ → Exec World Reply Str
  unfolding stored_hash verify_hash refuse hash_password auth_client_ip
  new_hash_for r body random now = do
    passwords ← body_or body
    guard (leb 16 (length passwords.1))
        (problem_with 400 (codes "new password must be at least 16 chars"))
    hash ← or_else server_error stored_hash
    (if verify_hash c.passwords hash passwords.0
        then pure hash
        else refuse (codes "password_change_failed") (codes "wrong current password")
            (codes "current password incorrect") (auth_client_ip c.trim_space r) now)
    token_or (hash_password c.passwords passwords.1 random)

  -- handleChangePassword from the new hash on
  unfoldable pub put_hash : HttpRequest → ℕ → Str → Handler
  unfolding update_auth token_version next_version revoke clear_cookie log_audit auth_client_ip
  put_hash r now new_hash = do
    or_else server_error (exec (update_auth new_hash (c.clock.stamp now)))
    version ← token_version
    or_else server_error (write_setting (codes "token_version") (itoa (next_version version)))
    revoke r now
    log_audit c.clock (codes "password_change") (codes "admin changed password")
        (auth_client_ip c.trim_space r) now
    pure (signed_out r)

  -- handleChangePassword
  unfoldable pub change_password : HttpRequest → Option (Str × Str) → Option Str → ℕ → Handler
  unfolding new_hash_for put_hash
  change_password r body random now = do
    new_hash ← new_hash_for r body random now
    put_hash r now new_hash
