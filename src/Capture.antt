-- ===== src/Capture.antt =====
-- internal/capture/capture.go: what is stored for a request that is captured. The encoder of
-- headers (package encoding/json), the clock's RFC 3339 text and strings.TrimSpace are parameters.
pub mod Entities
pub mod Classify
pub mod Scopes
pub mod Saving
pub mod Alerts
pub mod Bodies
pub mod Storing
use ooblivion.Shared.{
  ℕ, zero, suc, ℤ, pos, negsuc, pos_part, wrap64, Str, codes, is_empty, take, length, ltb, leb,
  Bool, true, false, Option, none, some, List, [], ◌∷◌, ◌++◌, if◌then◌else◌,
}
use ooblivion.Exec.{Exec, ◌>>=◌, ◌>>◌, pure, raise, gets, ignore}
use ooblivion.Models.{Request}
use ooblivion.Db.{Tables, World, Error, panic, exec}
use ooblivion.Http.{Body, HttpRequest, header_get}
use ooblivion.Http.ClientIp.{capture_client_ip, forwarded_ips}

-- What Store needs of the libraries and of its configuration.
pub record Capturing : Type 0 where
  pub marshal : List (Str × Str) → Str
  pub stamp : ℕ → Str
  pub trim_space : Str → Str
  pub max_body : ℤ

-- strings.Join(values, sep)
unfoldable pub join : Str → List Str → Str
join sep [] = []
join sep (v ∷ []) = v
join sep (v ∷ w ∷ vs) = v ++ (sep ++ join sep (w ∷ vs))

-- the loop over r.Header
unfoldable pub joined_headers : List (Str × List Str) → List (Str × Str)
joined_headers [] = []
joined_headers ((name, values) ∷ header) = (name, join (codes ", ") values) ∷ joined_headers header

-- n + 1 on int64
abbrev next : ℤ → ℤ
next (pos n) = pos (suc n)
next (negsuc zero) = pos 0
next (negsuc (suc n)) = negsuc n

-- io.ReadAll(io.LimitReader(body, limit)): a limit of 0 or less reads nothing; reading stops at the
-- limit, so that a failure behind it is not seen.
unfoldable pub read_all : ℤ → Body → Option Str
read_all limit body =
    if leb (pos_part limit) (length body.bytes)
    then some (take (pos_part limit) body.bytes)
    else if body.broken
    then none
    else some body.bytes

-- int64(len(raw)) > max_body
abbrev longer : ℕ → ℤ → Bool
longer n (pos m) = ltb m n
longer n (negsuc m) = true

-- raw[:max_body]; `none` is the panic on a negative bound
abbrev cut : ℤ → Str → Option Str
cut (pos m) raw = some (take m raw)
cut (negsuc m) raw = none

abbrev truncate : ℤ → Str → Option (Str × Bool)
truncate max_body raw =
    if longer (length raw) max_body
    then elim (cut max_body raw) [ none ↦ none | some kept ↦ some (kept, true) ]
    else some (raw, false)

-- readBody: the text and whether it was truncated; `none` is a panic
unfoldable pub read_body : ℤ → Option Body → Option (Str × Bool)
unfolding read_all wrap64
read_body max_body none = some ([], false)
read_body max_body (some body) = elim (read_all (wrap64 (next max_body)) body) [
  | none ↦ some ([], false)
  | some raw ↦ truncate max_body raw
]

-- INSERT INTO requests; saved, scope_id and notified have their defaults
unfoldable pub insert_request : Request → Tables → Option (ℕ × Tables)
insert_request req t =
    let id = suc t.last_request in
    some (id, record t { requests = t.requests ++ record req { id = id } ∷ []; last_request = id })

-- UPDATE stats SET total_captured = total_captured + 1 WHERE id = 1
unfoldable pub count_capture : Tables → Option (Unit {0} × Tables)
count_capture t = some (tt, record t { total_captured = suc t.total_captured })

module _ (c : Capturing) where
  unfoldable pub scheme_of : HttpRequest → Str
  scheme_of r =
      let proto = header_get r (codes "X-Forwarded-Proto") in
      if is_empty proto then (if r.tls then codes "https" else codes "http") else proto

  -- the literal `req`
  unfoldable pub captured : ℕ → HttpRequest → Str × Bool → Request
  unfolding joined_headers scheme_of
  captured now r (body, truncated) = record {
    id = 0;
    method = r.method;
    scheme = scheme_of r;
    host = r.host;
    path = r.path;
    query = r.raw_query;
    http_version = r.proto;
    request_headers = c.marshal (joined_headers r.header);
    body = body;
    body_truncated = truncated;
    source_ip = capture_client_ip c.trim_space r;
    remote_addr = r.remote_addr;
    forwarded_for = forwarded_ips c.trim_space r;
    user_agent = header_get r (codes "User-Agent");
    content_type = header_get r (codes "Content-Type");
    ip_country = header_get r (codes "Cf-Ipcountry");
    saved = false;
    scope_id = none;
    notified = false;
    created_at = c.stamp now;
  }

  -- what follows readBody
  unfoldable pub store_row : Request → Exec World Error Request
  store_row req = do
    id ← exec (insert_request req)
    ignore (exec count_capture)
    pure (record req { id = id })

  -- Store; `now` is the time of the call
  unfoldable pub store : ℕ → HttpRequest → Exec World Error Request
  unfolding captured store_row read_body
  store now r = elim (read_body c.max_body r.body) [
    | none ↦ raise panic
    | some read ↦ store_row (captured now r read)
  ]
