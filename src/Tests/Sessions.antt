-- ===== src/Tests/Sessions.antt =====
-- The sessions of internal/admin and the passwords of internal/auth/auth.go.
use ooblivion.Shared.{
  ◌≡◌, refl, arith, ℕ, ◌<◌, pos, Str, codes, str_eq, atoi, itoa, wrap64, digits_value, parse_digits,
  itoa_ℕ, digits_onto, last_index, split, any, false, some, ◌∷◌, inl,
}
use ooblivion.Exec.{ok, err}
use ooblivion.Db.{World, exec, query, query_row, faulty, answered}
use ooblivion.Db.Audit.{insert_audit}
use ooblivion.Http.{HttpRequest, header_get, cookie, canonical_from, values_of}
use ooblivion.Http.ClientIp.{auth_client_ip, split_host_port}
use ooblivion.Capture.Saving.{healthy}
use ooblivion.Auth.Denylist.{is_denied, insert_denied, denylist_add}
use ooblivion.Auth.RateLimiter.{allow, attempts_of, set_attempts, recent_from}
use ooblivion.Auth.Passwords.{hash_password, verify_password}
use ooblivion.Auth.Tokens.{issue_jwt, session_claims, times, hour_ns, parse_jwt}
use ooblivion.Scheduler.Settings.{read_value, setting, read_setting, put_setting, write_setting}
use ooblivion.Admin.{Reply, put, success, log_audit}
use ooblivion.Admin.Sessions.{
  cookie_name, session_claims_of, current_claims, checked_claims, set_cookie, stored_hash,
  verify_hash, token_version, clear_cookie, is_secure,
}
use ooblivion.Admin.Sessions.Accounts.{
  login, logout, change_password, signed_out, new_hash_for, put_hash, limit, checked_hash, refuse,
  update_auth, next_version, revoke,
}
use ooblivion.Admin.Sessions.Revocation.{version_of, change_password-current_claims}
use ooblivion.Admin.Sessions.Guard.{logout-current_claims}
use ooblivion.Admin.Sessions.Login.{login-current_claims}
use ooblivion.Tests.Samples.{visit}
use ooblivion.Tests.Console.{
  padded, passwords, tokens-IsReadable, console, credentials, guarded, claims, signed_in,
}

hash_lem :
    hash_password passwords (codes "0123456789abcdef") (some (codes "s"))
    ≡ some credentials.password_hash
unfolding hash_password padded
hash_lem = refl

signed_in-claims : (now : ℕ) → now < 86409 → session_claims_of console signed_in now ≡ some claims
unfolding session_claims_of parse_jwt cookie str_eq
signed_in-claims now h = ground arith

session-example : (current_claims console signed_in 10 (healthy guarded)).0 ≡ ok claims
unfolding current_claims session_claims_of parse_jwt cookie str_eq checked_claims is_denied query
    faulty answered atoi query_row any read_setting setting
session-example = refl

changed-example :
    (change_password console signed_in
      (some (codes "0123456789abcdef", codes "fedcba9876543210"))
      (some (codes "t"))
      10
      (healthy guarded)).0
    ≡ ok (signed_out console signed_in)
unfolding change_password verify_password hash_password padded str_eq exec query_row faulty answered
    session_claims_of parse_jwt cookie insert_audit atoi itoa header_get new_hash_for put_hash
    stored_hash verify_hash refuse update_auth token_version next_version revoke clear_cookie
    log_audit auth_client_ip write_setting put_setting read_setting setting insert_denied
    denylist_add is_secure canonical_from values_of any wrap64 digits_value parse_digits itoa_ℕ
    digits_onto last_index split split_host_port
changed-example = refl

version-example : version_of guarded ≡ pos 0
unfolding atoi query_row faulty str_eq read_value setting
version-example = refl

-- a state behind the change, in which all statements work
abbrev later_world : World
later_world =
    healthy
      (change_password console signed_in (some (codes "0123456789abcdef", codes "fedcba9876543210"))
        (some (codes "t")) 10 (healthy guarded)).1

change_password-current_claims_example :
    (current_claims console signed_in 20 later_world).0 ≡ err tt
change_password-current_claims_example =
    change_password-current_claims console signed_in 10
      (some (codes "0123456789abcdef", codes "fedcba9876543210")) (some (codes "t")) 0 guarded
      later_world (signed_out console signed_in) tokens-IsReadable version-example (omega arith)
      changed-example refl (inl refl) signed_in 10 20 claims session-example

logout-current_claims_example :
    (current_claims console signed_in 20
      (healthy (logout console signed_in 10 (healthy guarded)).1)).0
    ≡ err tt
logout-current_claims_example =
    logout-current_claims console signed_in signed_in 10 86409 20 guarded claims tokens-IsReadable
      (signed_in-claims 10 (omega arith)) refl refl

abbrev first_token : Str
first_token = 0 ∷ 9 ∷ 86409 ∷ codes "n"

abbrev login_reply : Reply
login_reply = record {
  status = 200;
  content = success;
  session = put (set_cookie console visit first_token);
}

login_lem :
    (login console visit (some (codes "0123456789abcdef")) (some (codes "n")) 9 (healthy guarded)).0
    ≡ ok login_reply
unfolding login limit allow attempts_of set_attempts recent_from checked_hash issue_jwt
    session_claims times set_cookie verify_password hash_password padded str_eq exec query_row
    faulty answered insert_audit atoi header_get stored_hash verify_hash refuse token_version
    log_audit auth_client_ip read_setting setting is_secure canonical_from values_of any wrap64
    digits_value parse_digits last_index split split_host_port
login_lem = refl

not_denied_yet : is_denied (codes "n") guarded.db ≡ false
unfolding is_denied any
not_denied_yet = refl

login-current_claims_example :
    let after =
      (login console visit
        (some (codes "0123456789abcdef"))
        (some (codes "n"))
        9
        (healthy guarded)).1 in
    (text : Str) × (login_reply.session ≡ put (set_cookie console visit text))
    × ((r : HttpRequest) (later : ℕ)
        → cookie r cookie_name ≡ some text
        → console.tokens.numeric_date later (pos 0)
          < console.tokens.numeric_date 9 (times hour_ns (pos 24))
        → (current_claims console r later (healthy after)).0
          ≡ ok (session_claims console.tokens (pos 24) (version_of guarded) 9 (codes "n")))
login-current_claims_example =
    login-current_claims console visit (some (codes "0123456789abcdef")) (codes "n") 9 guarded
      login_reply tokens-IsReadable not_denied_yet login_lem
