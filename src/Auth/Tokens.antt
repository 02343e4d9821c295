-- ===== src/Auth/Tokens.antt =====
-- Claims, IssueJWT and ParseJWT of internal/auth/auth.go. The package jwt, the calendar and
-- crypto/rand are a parameter.
use ooblivion.Shared.{
  ◌≡◌, refl, arith, ◌<◌, ℕ, ◌*◌, ◌-◌, ℤ, pos, negsuc, suc, wrap64, Str, codes, str_eq, Bool, true,
  Option, none, some, if◌then◌else◌,
}

pub record Claims : Type 0 where
  pub ver : ℤ
  pub subject : Str
  pub id : Str
  pub issued_at : ℕ
  pub expires_at : Option ℕ

pub record TokenLib : Type 0 where
  -- NewWithClaims with SignedString: the method's name, the claims and the key
  pub signed_string : Str → Claims → Str → Option Str
  -- ParseWithClaims at an instant, with the function that gives the key for a method, and
  -- `token.Valid`
  pub parse_with_claims : ℕ → Str → (Str → Option Str) → Option (Claims × Bool)
  -- NewNumericDate(now.Add(d))
  pub numeric_date : ℕ → ℤ → ℕ
  -- the RFC 3339 text of a numeric date
  pub stamp_date : ℕ → Str

-- a duration of so many units of `k` nanoseconds, on int64
unfoldable pub times : ℕ → ℤ → ℤ
times k (pos n) = wrap64 (pos (n * k))
times k (negsuc n) = wrap64 (negsuc (suc n * k - 1))

abbrev pub hour_ns : ℕ
hour_ns = 3600000000000

-- the function that gives ParseWithClaims the key
unfoldable pub key_for : Str → Str → Option Str
key_for secret method = if str_eq method (codes "HS512") then some secret else none

module _ (lib : TokenLib) where
  -- the claims of a new session
  unfoldable pub session_claims : ℤ → ℤ → ℕ → Str → Claims
  unfolding times
  session_claims ttl_hours version now jti = record {
    ver = version;
    subject = codes "admin";
    id = jti;
    issued_at = lib.numeric_date now (pos 0);
    expires_at = some (lib.numeric_date now (times hour_ns ttl_hours));
  }

  -- IssueJWT; `random` is the text of what rand.Read gives
  unfoldable pub issue_jwt : Str → ℤ → ℤ → ℕ → Option Str → Option Str
  unfolding session_claims
  issue_jwt secret ttl_hours version now none = none
  issue_jwt secret ttl_hours version now (some jti) =
      lib.signed_string (codes "HS512") (session_claims ttl_hours version now jti) secret

  -- ParseJWT
  unfoldable pub parse_jwt : ℕ → Str → Str → Option Claims
  unfolding key_for
  parse_jwt now secret text = elim (lib.parse_with_claims now text (key_for secret)) [
    | none ↦ none
    | some (claims, valid) ↦ if valid then some claims else none
  ]

-- What the program relies on: a token that was signed with HS512 is read back with its claims
-- while it has not expired, where the function gives the same key for that method; and what a
-- text says does not change with time.
pub record IsReadable (lib : TokenLib) : Type 0 where
  pub parse-signed :
      (claims : Claims) (secret text : Str) (key : Str → Option Str) (now expiry : ℕ)
      → lib.signed_string (codes "HS512") claims secret ≡ some text
      → key (codes "HS512") ≡ some secret
      → claims.expires_at ≡ some expiry
      → lib.numeric_date now (pos 0) < expiry
      → lib.parse_with_claims now text key ≡ some (claims, true)
  pub parse-parse :
      (key : Str → Option Str) (text : Str) (now later : ℕ) (one two : Claims × Bool)
      → lib.parse_with_claims now text key ≡ some one
      → lib.parse_with_claims later text key ≡ some two
      → two.0 ≡ one.0

module _ (lib : TokenLib) (secret text : Str) where
  -- A session's token is read back with its claims while it has not expired.
  pub parse_jwt-issue_jwt :
      IsReadable lib
      → (ttl_hours version : ℤ) (issued now : ℕ) (jti : Str)
      → issue_jwt lib secret ttl_hours version issued (some jti) ≡ some text
      → lib.numeric_date now (pos 0) < lib.numeric_date issued (times hour_ns ttl_hours)
      → parse_jwt lib now secret text ≡ some (session_claims lib ttl_hours version issued jti)
  unfolding parse_jwt issue_jwt session_claims key_for str_eq
  parse_jwt-issue_jwt readable ttl_hours version issued now jti signed fresh = ground (
    arith,
    readable.parse-signed (session_claims lib ttl_hours version issued jti) secret text
        (key_for secret) now (lib.numeric_date issued (times hour_ns ttl_hours)) signed refl refl
        fresh,
  )

  -- What ParseJWT returns is what the package read, and valid.
  parsed :
      (now : ℕ) (claims : Claims)
      → parse_jwt lib now secret text ≡ some claims
      → lib.parse_with_claims now text (key_for secret) ≡ some (claims, true)
  unfolding parse_jwt
  parsed now claims h = ground arith

  -- What a token says does not change with time.
  pub parse_jwt-parse_jwt :
      IsReadable lib
      → (now later : ℕ) (one two : Claims) → parse_jwt lib now secret text ≡ some one
      → parse_jwt lib later secret text ≡ some two
      → two ≡ one
  parse_jwt-parse_jwt readable now later one two h k =
      readable.parse-parse (key_for secret) text now later (one, true) (two, true)
        (parsed now one h) (parsed later two k)
