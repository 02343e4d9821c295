-- ===== src/Http/Headers.antt =====
-- The headers of an answer, set before the handler runs: withCORS of cmd/ooblivion/main.go,
-- withSecurityHeaders of internal/admin/admin.go, and what handleDownloadBody sets behind them. A
-- handler is what it does to the answer's header map, whose keys the program writes canonically.
use ooblivion.Shared.{
  ◌≡◌, refl, Str, codes, str_eq, Bool, true, false, Option, none, some, List, [], ◌∷◌,
  if◌then◌else◌, str_eq_iff, arith, ap, any, ◌∙◌, ◌||◌,
}

abbrev pub Headers : Type 0
Headers = List (Str × Str)

-- w.Header().Set(key, value)
unfoldable pub set : Str → Str → Headers → Headers
set key value [] = (key, value) ∷ []
set key value ((k, v) ∷ h) =
    let rest = set key value h in if str_eq k key then (key, value) ∷ h else (k, v) ∷ rest

unfoldable pub value_of : Str → Headers → Option Str
value_of key [] = none
value_of key ((k, v) ∷ h) = if str_eq k key then some v else value_of key h

-- withCORS
unfoldable pub with_cors : (Headers → Headers) → Headers → Headers
unfolding set
with_cors next h = next (
    set (codes "Access-Control-Expose-Headers") (codes "*") (
      set (codes "Access-Control-Allow-Headers") (codes "*") (
        set (codes "Access-Control-Allow-Methods") (codes "*")
          (set (codes "Access-Control-Allow-Origin") (codes "*") h))))

abbrev pub content_policy : Str
content_policy =
    codes
      "default-src 'self'; script-src 'self' 'unsafe-inline'; style-src 'self'; img-src 'self' data:; base-uri 'none'; frame-ancestors 'none'"

-- withSecurityHeaders
unfoldable pub with_security_headers : (Headers → Headers) → Headers → Headers
unfolding set
with_security_headers next h = next (
    set (codes "Content-Security-Policy") content_policy (
      set (codes "Cache-Control") (codes "no-store") (
        set (codes "Referrer-Policy") (codes "no-referrer") (
          set (codes "X-Frame-Options") (codes "DENY")
            (set (codes "X-Content-Type-Options") (codes "nosniff") h)))))

-- what handleDownloadBody sets before it writes the body
unfoldable pub download_headers : Str → Str → Headers → Headers
unfolding set
download_headers disposition length h = set (codes "X-Content-Type-Options") (codes "nosniff") (
    set (codes "Cache-Control") (codes "no-store") (
      set (codes "Content-Length") length (
        set (codes "Content-Disposition") disposition
          (set (codes "Content-Type") (codes "application/octet-stream") h))))

same_name : (k key other : Str) → str_eq k key ≡ true → str_eq k other ≡ str_eq key other
same_name k key other e = ap (λ n. str_eq n other) ((str_eq_iff k key).0 e)

value_of-set_other :
    (key other value : Str)
    → str_eq key other ≡ false
    → (h : Headers) → value_of other (set key value h) ≡ value_of other h
unfolding value_of set
value_of-set_other key other value apart [] = rw apart refl
value_of-set_other key other value apart ((k, v) ∷ h) =
    ground (arith, value_of-set_other key other value apart h, same_name k key other)

-- a handler that sets these headers, in this order
unfoldable set_all : List (Str × Str) → Headers → Headers
unfolding set
set_all [] h = h
set_all ((key, value) ∷ sets) h = set_all sets (set key value h)

or_false : (a b : Bool) → (a || b) ≡ false → (a ≡ false) × (b ≡ false)
or_false false b e = (refl, e)
or_false true b e = ground (arith, e)

set_all-kept :
    (other : Str) (sets : List (Str × Str))
    → any (λ w. str_eq w.0 other) sets ≡ false
    → (h : Headers) → value_of other (set_all sets h) ≡ value_of other h
unfolding set_all any
set_all-kept other [] apart h = refl
set_all-kept other ((key, value) ∷ sets) apart h =
    let both = or_false (str_eq key other) (any (λ w. str_eq w.0 other) sets) apart in
    set_all-kept other sets both.1 (set key value h) ∙ value_of-set_other key other value both.0 h

-- A header that withCORS or withSecurityHeaders sets has its value in the answer of every handler
-- that does not set it.
wrapped-kept :
    (other : Str) (sets : List (Str × Str))
    → any (λ w. str_eq w.0 other) sets ≡ false
    → value_of other (with_cors (with_security_headers (set_all sets)) [])
      ≡ value_of other (with_cors (with_security_headers (λ h. h)) [])
unfolding with_cors with_security_headers
wrapped-kept other sets apart = set_all-kept other sets apart _

-- the headers of both groups that say what a browser may do
unfoldable IsGuarded : Headers → Type 0
unfolding value_of
IsGuarded h =
    (value_of (codes "X-Frame-Options") h ≡ some (codes "DENY"))
    × (value_of (codes "X-Content-Type-Options") h ≡ some (codes "nosniff"))
    × (value_of (codes "Cache-Control") h ≡ some (codes "no-store"))
    × (value_of (codes "Referrer-Policy") h ≡ some (codes "no-referrer"))
    × (value_of (codes "Content-Security-Policy") h ≡ some content_policy)
    × (value_of (codes "Access-Control-Allow-Origin") h ≡ some (codes "*"))

-- The answer to a download has the headers of both groups, whatever its name and its length are.
download-IsGuarded :
    (disposition length : Str)
    → IsGuarded (with_cors (with_security_headers (download_headers disposition length)) [])
unfolding IsGuarded value_of set with_cors with_security_headers download_headers str_eq
download-IsGuarded disposition length = (refl, refl, refl, refl, refl, refl)
