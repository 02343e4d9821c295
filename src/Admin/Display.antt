-- ===== src/Admin/Display.antt =====
-- How the console shows and names a stored body, in internal/admin/handlers_requests.go:
-- bodyDisplayState, isDisplayableText and bodyFileExt. strings.ToLower is a parameter.
use ooblivion.Shared.{
  ◌≡◌, ◌≢◌, ◌≤◌, ◌<◌, ◌⊎◌, ◌↔◌, refl, arith, ℕ, Str, codes, is_empty, contains, has_prefix, Bool,
  true, false, not, ◌&&◌, ◌||◌, [], ◌∷◌, ◌==◌, ltb, leb, length, All, if◌then◌else◌,
}

-- maxDisplayBody
abbrev pub max_display_body : ℕ
max_display_body = 65536

-- the cases of the loop over the bytes
abbrev displayable_byte : ℕ → Bool
displayable_byte b =
    if b == 9 || b == 10 || b == 13 then true else not (ltb b 32 || b == 127 || leb 128 b)

-- isDisplayableText
unfoldable pub is_displayable_text : Str → Bool
is_displayable_text [] = true
is_displayable_text (b ∷ s) = displayable_byte b && is_displayable_text s

-- bodyDisplayState
unfoldable pub body_display_state : Str → Bool × Str
unfolding is_displayable_text
body_display_state body =
    if is_empty body
    then (false, codes "")
    else let too_large = ltb max_display_body (length body) in
      let binary = not (is_displayable_text body) in
      if too_large && binary
      then (true, codes "body contains binary or non-ASCII data and is too large to display inline")
      else if too_large
      then (true, codes "body is too large to display inline")
      else if binary
      then (true, codes "body contains binary or non-ASCII data")
      else (false, codes "")

-- bodyFileExt of a content type in lower case
unfoldable pub ext_of : Str → Str
unfolding contains
ext_of ct =
    if contains ct (codes "json")
    then codes ".json"
    else if contains ct (codes "xml")
    then codes ".xml"
    else if contains ct (codes "csv")
    then codes ".csv"
    else if contains ct (codes "javascript")
    then codes ".js"
    else if contains ct (codes "html")
    then codes ".html"
    else if contains ct (codes "x-www-form-urlencoded")
    then codes ".txt"
    else if contains ct (codes "text/")
    then codes ".txt"
    else if contains ct (codes "pdf")
    then codes ".pdf"
    else if contains ct (codes "png")
    then codes ".png"
    else if contains ct (codes "jpeg") || contains ct (codes "jpg")
    then codes ".jpg"
    else if contains ct (codes "gif")
    then codes ".gif"
    else if contains ct (codes "webp")
    then codes ".webp"
    else if contains ct (codes "zip")
    then codes ".zip"
    else if contains ct (codes "gzip")
    then codes ".gz"
    else codes ".bin"

-- bodyFileExt
unfoldable pub body_file_ext : (Str → Str) → Str → Str
unfolding ext_of
body_file_ext to_lower content_type = ext_of (to_lower content_type)

-- A byte that a page can show: tab, newline, carriage return, or a printable ASCII character.
abbrev pub IsPlain : ℕ → Type 0
IsPlain b = (b ≡ 9) ⊎ (b ≡ 10) ⊎ (b ≡ 13) ⊎ (32 ≤ b) × (b < 127)

is_displayable_text_iff : (s : Str) → is_displayable_text s ≡ true ↔ All IsPlain s
unfolding is_displayable_text
is_displayable_text_iff [] = ground arith
is_displayable_text_iff (b ∷ s) = ground (arith, is_displayable_text_iff s)

-- A stored body is shown inline exactly if it has at most 65536 bytes, all of them a tab, a
-- newline, a carriage return or a printable ASCII character.
pub body_display_state_iff :
    (body : Str) → (body_display_state body).0 ≡ false ↔ (length body ≤ 65536) × All IsPlain body
unfolding body_display_state
body_display_state_iff [] = ground arith
body_display_state_iff (b ∷ body) = ground (arith, is_displayable_text_iff (b ∷ body))

has_prefix-gzip : (s : Str) → has_prefix s (codes "gzip") ≡ true → contains s (codes "zip") ≡ true
unfolding has_prefix contains
has_prefix-gzip [] h = ground arith
has_prefix-gzip (c ∷ []) h = ground arith
has_prefix-gzip (c ∷ d ∷ s) h = ground arith

contains-cons :
    (c : ℕ) (s sub : Str) → contains (c ∷ s) sub ≡ (has_prefix (c ∷ s) sub || contains s sub)
unfolding contains
contains-cons c s sub = refl

contains-empty : contains [] (codes "gzip") ≡ false
unfolding contains has_prefix
contains-empty = refl

contains-gzip : (s : Str) → contains s (codes "gzip") ≡ true → contains s (codes "zip") ≡ true
contains-gzip [] h = ground (arith, contains-empty)
contains-gzip (c ∷ s) h = ground (
  arith,
  contains-cons c s (codes "gzip"),
  contains-cons c s (codes "zip"),
  has_prefix-gzip (c ∷ s),
  contains-gzip s,
)

-- Whatever the content type, a download never gets the extension .gz: every text that holds gzip
-- holds zip, which is looked for first.
pub body_file_ext-ne-gz :
    (to_lower : Str → Str) (content_type : Str) → body_file_ext to_lower content_type ≢ codes ".gz"
unfolding body_file_ext
body_file_ext-ne-gz to_lower content_type = ground (arith, contains-gzip (to_lower content_type))
