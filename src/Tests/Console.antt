-- ===== src/Tests/Console.antt =====
-- The packages of the console as concrete functions.
use ooblivion.Shared.{
  ◌≡◌, refl, arith, ℕ, zero, suc, ◌+◌, ◌/◌, ◌<◌, ℤ, pos, negsuc, Str, codes, str_eq, str_eq_iff,
  Bool, true, false, Option, none, some, [], ◌∷◌, length, ltb,
}
use ooblivion.Auth.Passwords.{Params, PasswordLib, IsSound}
use ooblivion.Auth.Tokens.{Claims, TokenLib, IsReadable}
use ooblivion.Db.{Credentials, World}
use ooblivion.Http.{HttpRequest}
use ooblivion.Exec.{ok}
use ooblivion.Admin.{Handler, success, answer}
use ooblivion.Admin.Sessions.{Console}
use ooblivion.Tests.Samples.{clock, trim_none, world, visit}

-- A key of so many bytes.
unfoldable pub padded : ℕ → Str → Str
padded zero s = []
padded (suc n) [] = 0 ∷ padded n []
padded (suc n) (c ∷ s) = c ∷ padded n s

length-padded : (n : ℕ) (s : Str) → length (padded n s) ≡ n
unfolding padded
length-padded zero s = refl
length-padded (suc n) [] = ground (arith, length-padded n [])
length-padded (suc n) (c ∷ s) = ground (arith, length-padded n s)

-- A salt of one byte is written in front of the hash.
abbrev written : ℕ → ℕ → ℕ → Str → Str → Option Str
written t m p [] h = none
written t m p (c ∷ []) h = some (t ∷ m ∷ p ∷ c ∷ h)
written t m p (c ∷ d ∷ s) h = none

abbrev read : Str → Option Params
read (t ∷ m ∷ p ∷ c ∷ h) =
    some (record { time = t; memory = m; threads = p; salt = c ∷ []; hash = h })
read s = none

abbrev pub passwords : PasswordLib
passwords = record {
  marshal = λ p. written p.time p.memory p.threads p.salt p.hash;
  unmarshal = read;
  encode = λ s. s;
  decode = λ s. some s;
  id_key = λ password salt t m p n. padded n password;
}

unmarshal_lem :
    (t m p : ℕ) (s h text : Str)
    → written t m p s h ≡ some text
    → read text ≡ some (record { time = t; memory = m; threads = p; salt = s; hash = h })
unmarshal_lem t m p [] h text e = ground arith
unmarshal_lem t m p (c ∷ []) h [] e = ground arith
unmarshal_lem t m p (c ∷ []) h (x ∷ text) e = ground arith
unmarshal_lem t m p (c ∷ d ∷ s) h text e = ground arith

pub passwords-IsSound : IsSound passwords
passwords-IsSound = record {
  unmarshal-marshal = λ p text e. unmarshal_lem p.time p.memory p.threads p.salt p.hash text e;
  decode-encode = λ bytes. refl;
  length-id_key = λ password salt t m p n. length-padded n password;
}

-- A token is its version, its two dates and its identifier.
abbrev signed : ℤ → Bool → ℕ → Option ℕ → Str → Option Str
signed (pos v) true issued (some expiry) id = some (v ∷ issued ∷ expiry ∷ id)
signed (pos v) true issued none id = none
signed (pos v) false issued expiry id = none
signed (negsuc v) named issued expiry id = none

abbrev parsed : ℕ → Str → Option (Claims × Bool)
parsed now (v ∷ issued ∷ expiry ∷ id) = some (
  record {
    ver = pos v;
    subject = codes "admin";
    id = id;
    issued_at = issued;
    expires_at = some expiry;
  },
  ltb now expiry,
)
parsed now s = none

abbrev date : ℕ → ℤ → ℕ
date now (pos d) = now + d / 1000000000
date now (negsuc d) = now

abbrev pub tokens : TokenLib
tokens = record {
  signed_string = λ method c secret.
      signed c.ver (str_eq c.subject (codes "admin")) c.issued_at c.expires_at c.id;
  parse_with_claims = λ now text key. parsed now text;
  numeric_date = date;
  stamp_date = λ t. t ∷ [];
}

parse-signed_lem :
    (v : ℤ) (subject id : Str) (issued : ℕ) (expires : Option ℕ) (text : Str) (now expiry : ℕ)
    → signed v (str_eq subject (codes "admin")) issued expires id ≡ some text
    → expires ≡ some expiry
    → now + 0 / 1000000000 < expiry
    → parsed now text
      ≡ some (
        record { ver = v; subject = subject; id = id; issued_at = issued; expires_at = expires },
        true,
      )
parse-signed_lem v subject id issued expires text now expiry e x h =
    ground (arith, str_eq_iff subject (codes "admin"))

parse-parse_lem :
    (text : Str) (now later : ℕ) (one two : Claims × Bool)
    → parsed now text ≡ some one
    → parsed later text ≡ some two
    → two.0 ≡ one.0
parse-parse_lem text now later one two h k = ground arith

pub tokens-IsReadable : IsReadable tokens
tokens-IsReadable = record {
  parse-signed = λ c secret text key now expiry e k x h.
      parse-signed_lem c.ver c.subject c.id c.issued_at c.expires_at text now expiry e x h;
  parse-parse = λ key text now later one two h k. parse-parse_lem text now later one two h k;
}

abbrev pub console : Console
console = record {
  clock = clock;
  passwords = passwords;
  tokens = tokens;
  equal_fold = str_eq;
  trim_space = trim_none;
  secret = codes "k";
  session_ttl = pos 24;
}

-- The hash of "0123456789abcdef" with the salt "s".
abbrev pub credentials : Credentials
credentials = record {
  password_hash = 2 ∷ 65536 ∷ 4 ∷ b's' ∷ padded 32 (codes "0123456789abcdef");
  created_at = 1 ∷ [];
  updated_at = 1 ∷ [];
}

abbrev pub guarded : World
guarded = record world { db = record world.db { auth = some credentials } }

-- A request with the token of a session of version 0.
abbrev pub token : Str
token = 0 ∷ 9 ∷ 86409 ∷ codes "j"

abbrev pub claims : Claims
claims = record {
  ver = pos 0;
  subject = codes "admin";
  id = codes "j";
  issued_at = 9;
  expires_at = some 86409;
}

abbrev pub signed_in : HttpRequest
signed_in = record visit { cookies = (codes "oob_session", token) ∷ [] }

abbrev pub fixed_answer : Handler
fixed_answer w = (ok (answer success), w)
