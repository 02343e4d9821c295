-- ===== src/Admin/Query.antt =====
-- queryRequests of internal/admin/handlers_requests.go: the filters of the list of requests. The
-- search `LIKE '%q%'` and the reading of a text as an integer by a column are parameters; LIKE with
-- an escape is written out, on texts of bytes.
pub mod Wildcards
pub mod Meaning
pub mod Items
use ooblivion.Shared.{
  ℕ, zero, suc, ◌+◌, ◌-◌, ◌*◌, not, ℤ, pos, negsuc, wrap64, Str, codes, str_eq, is_empty, contains,
  replace_all, Bool, true, false, ◌&&◌, ◌||◌, Option, none, some, List, [], ◌∷◌, ◌==◌, leb, length,
  take, drop, filter, order_by, if◌then◌else◌,
}
use ooblivion.Exec.{Exec, ◌>>=◌, ◌>>◌, pure}
use ooblivion.Models.{Request}
use ooblivion.Db.{Tables, World, Error, query, query_row, rows_err}

pub record QueryLib : Type 0 where
  -- `text LIKE '%' || q || '%'`: q and the text
  pub like_any : Str → Str → Bool
  -- the integer that an INTEGER column compares a text argument as
  pub as_integer : Str → Option ℕ

pub record RequestFilters : Type 0 where
  pub q : Str
  pub method : Str
  pub host : Str
  pub saved : Str
  pub country : Str
  pub scope_id : Str
  pub page : ℤ

-- one element of a LIKE pattern
pub data Piece : Type 0 where
  any_run : Piece
  any_one : Piece
  exactly : ℕ → Piece

abbrev lower_byte : ℕ → ℕ
lower_byte c = if leb 65 c && leb c 90 then c + 32 else c

-- the pieces of a pattern, with `e` as its escape; no pattern of the program ends with one
unfoldable pub read_pattern : ℕ → Str → List Piece
read_pattern e [] = []
read_pattern e (c ∷ []) =
    if c == b'%' then any_run ∷ [] else if c == b'_' then any_one ∷ [] else exactly c ∷ []
read_pattern e (c ∷ d ∷ s) =
    let behind = read_pattern e s in
    let rest = read_pattern e (d ∷ s) in
    if c == e
    then exactly d ∷ behind
    else if c == b'%'
    then any_run ∷ rest
    else if c == b'_'
    then any_one ∷ rest
    else exactly c ∷ rest

-- whether a test holds for some rest of a text
unfoldable pub some_rest : (Str → Bool) → Str → Bool
some_rest test [] = test []
some_rest test (c ∷ s) = test (c ∷ s) || some_rest test s

-- LIKE does not look at the case of ASCII letters
unfoldable pub like_pieces : List Piece → Str → Bool
unfolding some_rest
like_pieces [] s = is_empty s
like_pieces (any_run ∷ ps) s = some_rest (like_pieces ps) s
like_pieces (any_one ∷ ps) [] = false
like_pieces (any_one ∷ ps) (c ∷ s) = like_pieces ps s
like_pieces (exactly b ∷ ps) [] = false
like_pieces (exactly b ∷ ps) (c ∷ s) = lower_byte b == lower_byte c && like_pieces ps s

-- the four calls of strings.ReplaceAll on a host with an asterisk
unfoldable pub host_pattern : Str → Str
unfolding replace_all
host_pattern host =
    replace_all
      (replace_all (replace_all (replace_all host b'\\' (codes "\\\\")) b'%' (codes "\\%")) b'_'
        (codes "\\_"))
      b'*' (codes "%")

-- host LIKE ? ESCAPE '\'
unfoldable pub host_like : Str → Str → Bool
unfolding host_pattern read_pattern like_pieces
host_like host text = like_pieces (read_pattern b'\\' (host_pattern host)) text

abbrev pub host_matches : Str → Str → Bool
host_matches host text = if contains host (codes "*") then host_like host text else str_eq text host

abbrev pub same_id : Option ℕ → Option ℕ → Bool
same_id (some a) (some b) = a == b
same_id (some a) none = false
same_id none b = false

module _ (lib : QueryLib) where
  -- the WHERE clause
  unfoldable pub selected : RequestFilters → Request → Bool
  unfolding host_like contains
  selected f r =
      (is_empty f.q
        || lib.like_any f.q r.path
        || lib.like_any f.q r.query
        || lib.like_any f.q r.body
        || lib.like_any f.q r.host
        || lib.like_any f.q r.user_agent)
      && (is_empty f.method || str_eq r.method f.method)
      && (is_empty f.host || host_matches f.host r.host)
      && (if str_eq f.saved (codes "1")
          then r.saved
          else if str_eq f.saved (codes "0")
          then not r.saved
          else true)
      && (is_empty f.country || str_eq r.ip_country f.country)
      && (is_empty f.scope_id || same_id r.scope_id (lib.as_integer f.scope_id))

  abbrev pub per_page : ℕ
  per_page = 20

  -- OFFSET (page - 1) * perPage, on int; SQLite takes a negative one as 0
  abbrev at_least_zero : ℤ → ℕ
  at_least_zero (pos n) = n
  at_least_zero (negsuc n) = 0

  unfoldable pub offset_of : ℤ → ℕ
  offset_of (pos zero) = 0
  offset_of (pos (suc n)) = at_least_zero (wrap64 (pos (n * 20)))
  offset_of (negsuc n) = at_least_zero (wrap64 (negsuc ((n + 2) * 20 - 1)))

  -- ORDER BY id DESC LIMIT ? OFFSET ?
  unfoldable pub rows_of : RequestFilters → Tables → List Request
  unfolding selected offset_of
  rows_of f t = take per_page (
      drop (offset_of f.page)
        (order_by (λ (a b : Request). leb b.id a.id) (filter (selected f) t.requests)))

  -- queryRequests
  unfoldable pub query_requests : RequestFilters → Exec World Error (List Request × ℕ)
  unfolding rows_of
  query_requests f = do
    total ← query_row (λ (t : Tables). some (length (filter (selected f) t.requests)))
    items ← query (rows_of f)
    rows_err
    pure (items, total)
