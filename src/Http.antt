-- ===== src/Http.antt =====
-- What the program reads of an http.Request, and the two functions that find the visitor's
-- address: internal/capture/capture.go and internal/auth/auth.go.
pub mod ClientIp
pub mod Headers
use ooblivion.Shared.{
  ℕ, ◌+◌, ◌-◌, ◌≡◌, refl, Str, codes, str_eq, Bool, true, false, ◌&&◌, Option, none, some, List, [],
  ◌∷◌, ◌==◌, leb, if◌then◌else◌,
}

-- A body: its bytes, and whether reading fails behind them.
pub record Body : Type 0 where
  pub bytes : Str
  pub broken : Bool

pub record HttpRequest : Type 0 where
  pub method : Str
  pub host : Str
  pub path : Str
  pub raw_query : Str
  pub proto : Str
  pub tls : Bool
  pub remote_addr : Str
  -- the header map, with canonical names
  pub header : List (Str × List Str)
  pub cookies : List (Str × Str)
  pub body : Option Body

abbrev upper : ℕ → ℕ
upper c = if leb b'a' c && leb c b'z' then c - 32 else c

abbrev lower : ℕ → ℕ
lower c = if leb b'A' c && leb c b'Z' then c + 32 else c

-- textproto.CanonicalMIMEHeaderKey of a valid name; the flag is `upper`
unfoldable pub canonical_from : Bool → Str → Str
canonical_from up [] = []
canonical_from up (c ∷ s) = (if up then upper c else lower c) ∷ canonical_from (c == b'-') s

abbrev first_value : List Str → Str
first_value [] = []
first_value (v ∷ vs) = v

unfoldable pub values_of : Str → List (Str × List Str) → List Str
values_of key [] = []
values_of key ((name, values) ∷ header) = if str_eq name key then values else values_of key header

-- r.Header.Get(name): the first value, or the empty string
unfoldable pub header_get : HttpRequest → Str → Str
unfolding canonical_from values_of
header_get r name = first_value (values_of (canonical_from true name) r.header)

unfoldable pub cookie_in : Str → List (Str × Str) → Option Str
cookie_in name [] = none
cookie_in name ((n, v) ∷ cookies) = if str_eq n name then some v else cookie_in name cookies

-- r.Cookie(name); `none` is http.ErrNoCookie
unfoldable pub cookie : HttpRequest → Str → Option Str
unfolding cookie_in
cookie r name = cookie_in name r.cookies

canonical-real_ip : canonical_from true (codes "X-Real-IP") ≡ codes "X-Real-Ip"
unfolding canonical_from
canonical-real_ip = refl

-- What a handler answers: the status and the text of the body.
pub record Response : Type 0 where
  pub status : ℕ
  pub body : Str
