-- ===== src/Admin/Rules/Scopes.antt =====
-- The handlers of scopes: internal/admin/handlers_rules.go.
use ooblivion.Shared.{
  ℕ, suc, ℤ, pos, Str, codes, itoa, itoa_ℕ, Bool, true, false, not, Option, none, some, List, [],
  ◌∷◌, ◌++◌, any, filter, map, order_by, if◌then◌else◌,
}
use ooblivion.Exec.{Exec, ◌>>=◌, ◌>>◌, pure, or_else}
use ooblivion.Models.{Request, Scope}
use ooblivion.Db.{Tables, World, Error, exec, query, rows_err, refers_to}
use ooblivion.Http.{HttpRequest}
use ooblivion.Capture.Classify.{scope_before}
use ooblivion.Admin.{success, success_id, Handler, server_error, path_id, is_id}
use ooblivion.Admin.Rules.{RulesLib, RulePayload, or_default, valid_payload, finish}

-- INSERT INTO scopes
unfoldable pub insert_scope : RulePayload → Str → Tables → Option (ℕ × Tables)
insert_scope p now t =
    let id = suc t.last_scope in
    let row : Scope = record {
      id = id;
      name = p.name;
      match_on = p.match_on;
      match_type = p.match_type;
      pattern = p.pattern;
      header_name = p.header_name;
      enabled = or_default true p.enabled;
      priority = or_default (pos 0) p.priority;
      created_at = now;
      updated_at = now;
    } in
    some (id, record t { scopes = t.scopes ++ row ∷ []; last_scope = id })

-- UPDATE scopes SET ... WHERE id = ?
unfoldable pub updated_scope : RulePayload → Str → Scope → Scope
updated_scope p now s = record s {
  name = p.name;
  match_on = p.match_on;
  match_type = p.match_type;
  pattern = p.pattern;
  header_name = p.header_name;
  enabled = or_default true p.enabled;
  priority = or_default (pos 0) p.priority;
  updated_at = now;
}

unfoldable pub update_scope : ℤ → RulePayload → Str → Tables → Option (Unit {0} × Tables)
unfolding updated_scope
update_scope id p now t = some (
  tt,
  record t {
    scopes = map (λ (s : Scope). if is_id id s.id then updated_scope p now s else s) t.scopes;
  },
)

-- UPDATE scopes SET enabled = CASE enabled WHEN 1 THEN 0 ELSE 1 END WHERE id = ?
unfoldable pub toggle_scope : ℤ → Tables → Option (Unit {0} × Tables)
toggle_scope id t = some (
  tt,
  record t {
    scopes =
        map (λ (s : Scope). if is_id id s.id then record s { enabled = not s.enabled } else s)
          t.scopes;
  },
)

abbrev pub in_scope : ℤ → Option ℕ → Bool
in_scope id none = false
in_scope id (some key) = is_id id key

-- UPDATE requests SET scope_id = NULL WHERE scope_id = ?
unfoldable pub unscope : ℤ → Tables → Option (Unit {0} × Tables)
unscope id t = some (
  tt,
  record t {
    requests =
        map (λ (r : Request). if in_scope id r.scope_id then record r { scope_id = none } else r)
          t.requests;
  },
)

-- DELETE FROM scopes WHERE id = ?: refused while a request refers to the row
unfoldable pub delete_scopes : ℤ → Tables → Option (Unit {0} × Tables)
delete_scopes id t =
    let doomed = filter (λ (s : Scope). is_id id s.id) t.scopes in
    if any (λ (s : Scope). any (λ (r : Request). refers_to r.scope_id s.id) t.requests) doomed
    then none
    else some (tt, record t { scopes = filter (λ (s : Scope). not (is_id id s.id)) t.scopes })

module _ (c : RulesLib) where
  -- handleCreateScope
  unfoldable pub create_scope : HttpRequest → Option RulePayload → ℕ → Handler
  unfolding valid_payload insert_scope finish
  create_scope r body now = do
    p ← valid_payload c body
    id ← or_else server_error (exec (insert_scope p (c.clock.stamp now)))
    finish c (codes "scope_create")
        (codes "scope " ++ itoa_ℕ id ++ codes " " ++ c.quote p.name ++ codes " created") r now
        (success_id id)

  abbrev named : ℤ → Str → Str
  named id what = codes "scope " ++ itoa id ++ what

  -- handleUpdateScope
  unfoldable pub put_scope : HttpRequest → Str → Option RulePayload → ℕ → Handler
  unfolding path_id valid_payload update_scope finish
  put_scope r path_value body now = do
    id ← path_id path_value
    p ← valid_payload c body
    or_else server_error (exec (update_scope id p (c.clock.stamp now)))
    finish c (codes "scope_update") (named id (codes " updated")) r now success

  -- handleToggleScope
  unfoldable pub switch_scope : HttpRequest → Str → ℕ → Handler
  unfolding path_id toggle_scope finish
  switch_scope r path_value now = do
    id ← path_id path_value
    or_else server_error (exec (toggle_scope id))
    finish c (codes "scope_toggle") (named id (codes " toggled")) r now success

  -- handleDeleteScope
  unfoldable pub delete_scope : HttpRequest → Str → ℕ → Handler
  unfolding path_id unscope delete_scopes finish
  delete_scope r path_value now = do
    id ← path_id path_value
    or_else server_error (exec (unscope id))
    or_else server_error (exec (delete_scopes id))
    finish c (codes "scope_delete") (named id (codes " deleted")) r now success

-- listScopes
unfoldable pub list_scopes : Exec World Error (List Scope)
unfolding scope_before rows_err
list_scopes = do
  items ← query (λ (t : Tables). order_by scope_before t.scopes)
  rows_err
  pure items
