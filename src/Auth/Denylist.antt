-- ===== src/Auth/Denylist.antt =====
-- The revoked tokens of internal/auth/auth.go: DenylistAdd, DenylistCheck and DenylistPrune. The
-- RFC 3339 text of an instant is a parameter.
use ooblivion.Shared.{
  Str, str_eq, str_lt, Bool, not, Option, none, some, [], ◌∷◌, ◌++◌, any, filter, if◌then◌else◌,
}
use ooblivion.Exec.{Exec}
use ooblivion.Db.{Tables, World, Error, exec, query}

-- jti is the primary key: a second insertion is refused
unfoldable pub insert_denied : Str → Str → Tables → Option (Unit {0} × Tables)
insert_denied jti expires_at t =
    if any (λ (row : Str × Str). str_eq row.0 jti) t.jwt_denylist
    then none
    else some (tt, record t { jwt_denylist = t.jwt_denylist ++ (jti, expires_at) ∷ [] })

unfoldable pub is_denied : Str → Tables → Bool
is_denied jti t = any (λ (row : Str × Str). str_eq row.0 jti) t.jwt_denylist

-- DELETE FROM jwt_denylist WHERE expires_at < ?
unfoldable pub delete_expired : Str → Tables → Option (Unit {0} × Tables)
delete_expired now t = some (
  tt,
  record t { jwt_denylist = filter (λ (row : Str × Str). not (str_lt row.1 now)) t.jwt_denylist },
)

unfoldable pub denylist_add : Str → Str → Exec World Error (Unit {0})
unfolding insert_denied
denylist_add jti expires_at = exec (insert_denied jti expires_at)

unfoldable pub denylist_check : Str → Exec World Error Bool
unfolding is_denied
denylist_check jti = query (is_denied jti)

unfoldable pub denylist_prune : Str → Exec World Error (Unit {0})
unfolding delete_expired
denylist_prune now = exec (delete_expired now)
