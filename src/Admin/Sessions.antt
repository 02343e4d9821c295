-- ===== src/Admin/Sessions.antt =====
-- Sessions: internal/admin/handlers_auth.go, and the middleware of internal/admin/admin.go.
pub mod Accounts
pub mod Revocation
pub mod Guard
pub mod Login
use ooblivion.Shared.{
  ℕ, zero, suc, ◌+◌, ◌≡◌, ap, arith, ℤ, pos, negsuc, wrap64, Str, codes, str_eq, has_prefix, atoi,
  itoa, Bool, true, false, not, ◌&&◌, ◌||◌, Option, none, some, leb, ltb, length, ◌==◌,
  if◌then◌else◌,
}
use ooblivion.Exec.{
  Result, ok, err, Exec, pure, raise, gets, modify, ◌>>=◌, ◌>>◌, or_else, try, ignore,
}
use ooblivion.Db.{
  Credentials, Tables, World, Error, driver, constraint, no_rows, panic, exec, query_row,
}
use ooblivion.Http.{HttpRequest, header_get, cookie}
use ooblivion.Http.ClientIp.{auth_client_ip}
use ooblivion.Auth.RateLimiter.{RateLimiter, allow}
use ooblivion.Auth.Denylist.{denylist_add, denylist_check}
use ooblivion.Auth.Passwords.{PasswordLib, hash_password, verify_password}
use ooblivion.Auth.Tokens.{Claims, TokenLib, issue_jwt, parse_jwt, times}
use ooblivion.Scheduler.{Clock}
use ooblivion.Scheduler.Settings.{read_setting, write_setting}
use ooblivion.Admin.{
  Cookie, Content, problem, success, redirect, CookieChange, keep, put, Reply, Handler,
  problem_with, server_error, answer, log_audit,
}

-- what the handlers use: the packages, `secret` and the `SessionTTL` of the configuration
pub record Console : Type 0 where
  pub clock : Clock
  pub passwords : PasswordLib
  pub tokens : TokenLib
  pub equal_fold : Str → Str → Bool
  pub trim_space : Str → Str
  pub secret : Str
  pub session_ttl : ℤ

abbrev pub cookie_name : Str
cookie_name = codes "oob_session"

-- `secure` of setCookie and clearCookie
unfoldable pub is_secure : Console → HttpRequest → Bool
unfolding header_get
is_secure c r = r.tls || c.equal_fold (header_get r (codes "X-Forwarded-Proto")) (codes "https")

unfoldable pub set_cookie : Console → HttpRequest → Str → Cookie
unfolding is_secure times
set_cookie c r token = record {
  value = token;
  max_age = times 3600 c.session_ttl;
  http_only = true;
  secure = is_secure c r;
}

unfoldable pub clear_cookie : Console → HttpRequest → Cookie
unfolding is_secure
clear_cookie c r = record {
  value = codes "";
  max_age = negsuc 0;
  http_only = false;
  secure = is_secure c r;
}

abbrev password_hash : Option Credentials → Option Str
password_hash none = none
password_hash (some credentials) = some credentials.password_hash

-- SELECT password_hash FROM auth WHERE id = 1
unfoldable pub stored_hash : Exec World Error Str
stored_hash = query_row (λ (t : Tables). password_hash t.auth)

-- verifyHash
abbrev accepted : Option Bool → Bool
accepted none = false
accepted (some b) = b

unfoldable pub verify_hash : PasswordLib → Str → Str → Bool
unfolding verify_password
verify_hash lib hash password = accepted (verify_password lib hash password)

module _ {E : Type 0} where
  -- tokenVersion: what Atoi returns, its error dropped
  unfoldable pub token_version : Exec World E ℤ
  token_version = do value ← read_setting (codes "token_version"); pure (atoi value).0

abbrev pub eq_ℤ : ℤ → ℤ → Bool
eq_ℤ (pos a) (pos b) = a == b
eq_ℤ (negsuc a) (negsuc b) = a == b
eq_ℤ (pos a) (negsuc b) = false
eq_ℤ (negsuc a) (pos b) = false

pub eq_ℤ_refl : (a : ℤ) → eq_ℤ a a ≡ true
eq_ℤ_refl (pos a) = ground arith
eq_ℤ_refl (negsuc a) = ground arith

module _ (c : Console) where
  -- the claims of the cookie's token
  unfoldable pub session_claims_of : HttpRequest → ℕ → Option Claims
  unfolding cookie parse_jwt
  session_claims_of r now = elim (cookie r cookie_name) [
    | none ↦ none
    | some text ↦ parse_jwt c.tokens now c.secret text
  ]

  -- the comparison of the versions, the last in the condition
  unfoldable pub versioned : Claims → Exec World (Unit {0}) Claims
  unfolding token_version
  versioned claims = do
    version ← token_version
    if eq_ℤ claims.ver version then pure claims else raise tt

  -- currentClaims behind the reading of the token
  unfoldable pub checked_claims : Claims → Exec World (Unit {0}) Claims
  unfolding denylist_check versioned
  checked_claims claims = do
    denied ← or_else (λ e. tt) (denylist_check claims.id)
    if denied || not (str_eq claims.subject (codes "admin")) then raise tt else versioned claims

  abbrev pub check_all : Option Claims → Exec World (Unit {0}) Claims
  check_all none = raise tt
  check_all (some claims) = checked_claims claims

  -- currentClaims
  unfoldable pub current_claims : HttpRequest → ℕ → Exec World (Unit {0}) Claims
  unfolding session_claims_of checked_claims
  current_claims r now = check_all (session_claims_of r now)

  pub current_claims-some :
      (r : HttpRequest) (now : ℕ) (w : World) (claims : Claims)
      → session_claims_of r now ≡ some claims
      → current_claims r now w ≡ checked_claims claims w
  unfolding current_claims
  current_claims-some r now w claims h = ap (λ o. check_all o w) h

  -- isAPI
  unfoldable pub is_api : HttpRequest → Bool
  is_api r = has_prefix r.path (codes "/admin/api")

  abbrev pub login_redirect : Reply
  login_redirect = record {
    status = 302;
    content = redirect (codes "/admin/login");
    session = keep;
  }

  -- auth
  unfoldable pub auth : Handler → HttpRequest → ℕ → Handler
  unfolding current_claims is_api
  auth next r now = do
    session ← try (current_claims r now)
    elim session [
      | ok claims ↦ next
      | err e ↦
          if is_api r then raise (problem_with 401 (codes "unauthorized")) else raise login_redirect
    ]
