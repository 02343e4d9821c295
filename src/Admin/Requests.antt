-- ===== src/Admin/Requests.antt =====
-- The handlers that change captured requests: internal/admin/handlers_requests.go.
pub mod Keeping
pub mod Inbox
use ooblivion.Shared.{
  ℕ, ℤ, pos, Str, codes, itoa, itoa_ℕ, is_empty, Bool, true, false, not, Option, none, some, List,
  [], ◌∷◌, ◌++◌, ◌==◌, any, map, if◌then◌else◌,
}
use ooblivion.Exec.{Exec, ◌>>=◌, ◌>>◌, pure, raise, or_else}
use ooblivion.Models.{Request}
use ooblivion.Db.{Tables, World, Error, exec, query_row, delete_requests}
use ooblivion.Http.{HttpRequest}
use ooblivion.Http.ClientIp.{auth_client_ip}
use ooblivion.Scheduler.{Clock, flush}
use ooblivion.Admin.{
  Content, success, success_deleted, item, Reply, Handler, problem_with, server_error, answer,
  log_audit, path_id, is_id,
}

-- UPDATE requests SET saved = ?, scope_id = NULL WHERE id = ?, which keeps the scope on saving
unfoldable pub set_saved : Bool → ℤ → Tables → Option (Unit {0} × Tables)
set_saved saved id t = some (
  tt,
  record t {
    requests =
        map
          (λ (r : Request).
            if is_id id r.id
            then if saved
              then record r { saved = true }
              else record r { saved = false; scope_id = none }
            else r)
          t.requests;
  },
)

-- SELECT ... FROM requests WHERE id = ?
unfoldable pub request_with : ℤ → List Request → Option Request
request_with id [] = none
request_with id (r ∷ rows) = if is_id id r.id then some r else request_with id rows

-- the verb %v of a bool
abbrev bool_text : Bool → Str
bool_text true = codes "true"
bool_text false = codes "false"

module _ (clock : Clock) (trim_space : Str → Str) where
  unfoldable pub finish : Str → Str → HttpRequest → ℕ → Content → Handler
  unfolding log_audit auth_client_ip
  finish action detail r now content = do
    log_audit clock action detail (auth_client_ip trim_space r) now
    pure (answer content)

  -- toggleSaved
  unfoldable pub toggle_saved : HttpRequest → Str → Bool → ℕ → Handler
  unfolding path_id set_saved finish
  toggle_saved r path_value saved now = do
    id ← path_id path_value
    or_else server_error (exec (set_saved saved id))
    finish (codes "save_request")
        (codes "request " ++ itoa id ++ codes " saved=" ++ bool_text saved) r now success

  -- handleDeleteRequest
  unfoldable pub delete_request : HttpRequest → Str → ℕ → Handler
  unfolding path_id delete_requests finish
  delete_request r path_value now = do
    id ← path_id path_value
    or_else server_error (exec (delete_requests (λ row. is_id id row.id)))
    finish (codes "delete_request") (codes "request " ++ itoa id ++ codes " deleted") r now success

  abbrev ids_or : Option (List ℤ) → Exec World Reply (List ℤ)
  ids_or none = raise (problem_with 400 (codes "invalid body"))
  ids_or (some []) = raise (problem_with 400 (codes "invalid body"))
  ids_or (some (id ∷ ids)) = pure (id ∷ ids)

  -- handleBulkDelete
  unfoldable pub bulk_delete : HttpRequest → Option (List ℤ) → ℕ → Handler
  unfolding delete_requests finish
  bulk_delete r body now = do
    ids ← ids_or body
    count ← or_else server_error (exec (delete_requests (λ row. any (λ id. is_id id row.id) ids)))
    finish (codes "bulk_delete") (codes "deleted " ++ itoa_ℕ count ++ codes " requests") r now
        (success_deleted count)

  -- handleGetRequest
  unfoldable pub get_request : Str → Handler
  unfolding path_id request_with
  get_request path_value = do
    id ← path_id path_value
    found ←
        or_else (λ e. problem_with 404 (codes "not found"))
          (query_row (λ (t : Tables). request_with id t.requests))
    pure (answer (item found))

  -- handleFlush
  unfoldable pub flush_now : ℤ → HttpRequest → ℕ → Handler
  unfolding flush auth_client_ip
  flush_now default_days r now = do
    count ← or_else server_error (flush clock default_days true (auth_client_ip trim_space r) now)
    pure (answer (success_deleted count))
