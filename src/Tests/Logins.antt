-- ===== src/Tests/Logins.antt =====
-- A login of internal/admin/handlers_auth.go that a change of the password overtakes.
use ooblivion.Shared.{
  ◌≡◌, refl, Str, codes, str_eq, atoi, itoa, wrap64, digits_value, parse_digits, itoa_ℕ,
  digits_onto, last_index, split, any, false, some, ◌∷◌,
}
use ooblivion.Exec.{ok}
use ooblivion.Db.{World, exec, query_row, faulty, answered}
use ooblivion.Db.Audit.{insert_audit}
use ooblivion.Http.{header_get, cookie, canonical_from, values_of}
use ooblivion.Http.ClientIp.{auth_client_ip, split_host_port}
use ooblivion.Capture.Saving.{healthy}
use ooblivion.Auth.Denylist.{is_denied, insert_denied, denylist_add}
use ooblivion.Auth.RateLimiter.{allow, attempts_of, set_attempts, recent_from}
use ooblivion.Auth.Passwords.{hash_password, verify_password}
use ooblivion.Auth.Tokens.{issue_jwt, session_claims, times, parse_jwt}
use ooblivion.Scheduler.Settings.{setting, read_setting, put_setting, write_setting}
use ooblivion.Admin.{Reply, put, success, log_audit}
use ooblivion.Admin.Sessions.{
  session_claims_of, set_cookie, stored_hash, verify_hash, token_version, clear_cookie, is_secure,
}
use ooblivion.Admin.Sessions.Accounts.{
  change_password, new_hash_for, put_hash, limit, checked_hash, refuse, update_auth, next_version,
  revoke,
}
use ooblivion.Interleaving.Logins.{
  checking, admitting, login_around, then_world, Admitted, login_around-current_claims,
}
use ooblivion.Tests.Samples.{visit}
use ooblivion.Tests.Console.{padded, tokens-IsReadable, console, guarded, signed_in}

-- the change of the password, in full
abbrev changing : World → World
changing w =
    (change_password console signed_in (some (codes "0123456789abcdef", codes "fedcba9876543210"))
      (some (codes "t")) 10 w).1

-- the token of a login with the old password has the new version
abbrev new_token : Str
new_token = 1 ∷ 9 ∷ 86409 ∷ codes "n"

abbrev reply : Reply
reply = record {
  status = 200;
  content = success;
  session = put (set_cookie console visit new_token);
}

overtaken_lem :
    (login_around console
      (λ v. healthy (changing v))
      visit
      (some (codes "0123456789abcdef"))
      (some (codes "n"))
      9
      (healthy guarded)).0
    ≡ ok reply
unfolding login_around checking admitting change_password limit allow attempts_of set_attempts
    recent_from checked_hash issue_jwt session_claims times set_cookie verify_password hash_password
    padded str_eq exec query_row faulty answered session_claims_of parse_jwt cookie insert_audit
    atoi itoa header_get new_hash_for put_hash stored_hash verify_hash refuse update_auth
    token_version next_version revoke clear_cookie log_audit auth_client_ip write_setting
    put_setting read_setting setting insert_denied denylist_add is_secure canonical_from values_of
    any wrap64 digits_value parse_digits itoa_ℕ digits_onto last_index split split_host_port
overtaken_lem = refl

free_lem :
    is_denied
      (codes "n")
      (then_world console changing visit (some (codes "0123456789abcdef")) 9 guarded).db
    ≡ false
unfolding login_around checking admitting change_password limit allow attempts_of set_attempts
    recent_from checked_hash issue_jwt session_claims times set_cookie verify_password hash_password
    padded str_eq exec query_row faulty answered session_claims_of parse_jwt cookie insert_audit
    atoi itoa header_get new_hash_for put_hash stored_hash verify_hash refuse update_auth
    token_version next_version revoke clear_cookie log_audit auth_client_ip write_setting
    put_setting read_setting setting insert_denied denylist_add is_secure canonical_from values_of
    any wrap64 digits_value parse_digits itoa_ℕ digits_onto last_index split split_host_port
    is_denied
free_lem = refl

login_around-current_claims_example :
    (token : Str) × (reply.session ≡ put (set_cookie console visit token))
    × Admitted console token
        (codes "n")
        9
        (then_world console changing visit (some (codes "0123456789abcdef")) 9 guarded)
        (login_around console
          (λ v. healthy (changing v))
          visit
          (some (codes "0123456789abcdef"))
          (some (codes "n"))
          9
          (healthy guarded)).1
login_around-current_claims_example =
    login_around-current_claims console changing visit (some (codes "0123456789abcdef")) (codes "n")
      9 guarded reply tokens-IsReadable free_lem overtaken_lem
