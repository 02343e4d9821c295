-- ===== src/Admin/Query/Meaning.antt =====
-- What the filters of queryRequests of internal/admin/handlers_requests.go mean, one by one.
use ooblivion.Shared.{
  Str, codes, str_eq, str_eq_iff, is_empty, contains, Bool, true, false, ◌&&◌, ◌||◌, not, none, [],
  ◌≡◌, ◌≢◌, ◌⊎◌, ◌↔◌, arith, if◌then◌else◌,
}
use ooblivion.Models.{Request}
use ooblivion.Admin.Query.{QueryLib, RequestFilters, host_like, host_matches, same_id, selected}

-- A host with an asterisk is a pattern, any other is compared.
abbrev pub IsHost : Str → Str → Type 0
IsHost wanted host =
    ((contains wanted (codes "*") ≡ true) × (host_like wanted host ≡ true))
    ⊎ ((contains wanted (codes "*") ≡ false) × (host ≡ wanted))

-- What a request must have to be listed: a filter that is empty asks for nothing.
pub record IsSelected (lib : QueryLib) (f : RequestFilters) (r : Request) : Type 0 where
  pub search :
      (f.q ≡ [])
      ⊎ ((lib.like_any f.q r.path ≡ true)
          ⊎ ((lib.like_any f.q r.query ≡ true)
              ⊎ ((lib.like_any f.q r.body ≡ true)
                  ⊎ ((lib.like_any f.q r.host ≡ true) ⊎ (lib.like_any f.q r.user_agent ≡ true)))))
  pub method : (f.method ≡ []) ⊎ (r.method ≡ f.method)
  pub host : (f.host ≡ []) ⊎ IsHost f.host r.host
  pub saved : f.saved ≡ codes "1" → r.saved ≡ true
  pub unsaved : f.saved ≡ codes "0" → r.saved ≡ false
  pub country : (f.country ≡ []) ⊎ (r.ip_country ≡ f.country)
  pub scope : (f.scope_id ≡ []) ⊎ ((r.scope_id ≢ none) × (r.scope_id ≡ lib.as_integer f.scope_id))

selected-IsSelected :
    (lib : QueryLib) (f : RequestFilters) (r : Request)
    → selected lib f r ≡ true
    → IsSelected lib f r
unfolding selected
selected-IsSelected lib f r h = record {
  search = ground (arith, h);
  method = ground (arith, h, str_eq_iff r.method f.method);
  host = ground (arith, h, str_eq_iff r.host f.host);
  saved = λ e. ground (arith, h, str_eq_iff f.saved (codes "1"), e);
  unsaved =
      λ e. ground (arith, h, str_eq_iff f.saved (codes "1"), str_eq_iff f.saved (codes "0"), e);
  country = ground (arith, h, str_eq_iff r.ip_country f.country);
  scope = ground (arith, h);
}

both : (a b : Bool) → a ≡ true → b ≡ true → (a && b) ≡ true
both a b h k = ground (arith, h, k)

IsSelected-selected :
    (lib : QueryLib) (f : RequestFilters) (r : Request)
    → IsSelected lib f r
    → selected lib f r ≡ true
unfolding selected
IsSelected-selected lib f r s =
    let search : (is_empty f.q
          || lib.like_any f.q r.path
          || lib.like_any f.q r.query
          || lib.like_any f.q r.body
          || lib.like_any f.q r.host
          || lib.like_any f.q r.user_agent)
        ≡ true =
      ground (arith, s.search) in
    let method : (is_empty f.method || str_eq r.method f.method) ≡ true =
      ground (arith, s.method, str_eq_iff r.method f.method) in
    let host : (is_empty f.host || host_matches f.host r.host) ≡ true =
      ground (arith, s.host, str_eq_iff r.host f.host) in
    let saved : (if str_eq f.saved (codes "1")
          then r.saved
          else if str_eq f.saved (codes "0")
          then not r.saved
          else true)
        ≡ true =
      ground (
        arith,
        s.saved,
        s.unsaved,
        str_eq_iff f.saved (codes "1"),
        str_eq_iff f.saved (codes "0"),
      ) in
    let country : (is_empty f.country || str_eq r.ip_country f.country) ≡ true =
      ground (arith, s.country, str_eq_iff r.ip_country f.country) in
    let scope : (is_empty f.scope_id || same_id r.scope_id (lib.as_integer f.scope_id)) ≡ true =
      ground (arith, s.scope) in
    both _ _ (both _ _ (both _ _ (both _ _ (both _ _ search method) host) saved) country) scope

-- A row stands in the result exactly if it meets every filter.
pub selected_iff :
    (lib : QueryLib) (f : RequestFilters) (r : Request)
    → (selected lib f r ≡ true) ↔ IsSelected lib f r
selected_iff lib f r = (selected-IsSelected lib f r, IsSelected-selected lib f r)
