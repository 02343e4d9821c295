-- ===== src/Admin/Routes/Reading.antt =====
-- The routes of the method GET, in internal/admin/admin.go: none writes.
use ooblivion.Shared.{
  ℕ, ◌≡◌, refl, arith, ◌⊎◌, inl, inr, ◌++◌, Str, codes, str_eq, has_prefix, true, Option,
  if◌then◌else◌,
}
use ooblivion.Db.{Tables, World}
use ooblivion.Db.Keeping.{Keeps-pure}
use ooblivion.Http.{HttpRequest}
use ooblivion.Admin.Viewing.{Site, dashboard_page, login_page, show_version}
use ooblivion.Admin.Keeping.Viewing.{
  Keeps-get_request, Keeps-show_stats, Keeps-show_settings, Keeps-settings_view,
  Keeps-list_requests, Keeps-requests_view, Keeps-detail_view, Keeps-download_body,
  Keeps-list_audit, Keeps-audit_view, Keeps-show_scopes, Keeps-show_rules, Keeps-scopes_view,
  Keeps-notifications_view,
}
use ooblivion.Admin.Routes.{
  Route, static_files, login_form_page, api_login, dashboard_tree, dashboard_root, api_logout,
  requests_list_page, request_page, scopes_list_page, rules_list_page, settings_form_page,
  audit_list_page, api_stats, api_requests, api_request, api_download, api_save, api_unsave,
  api_delete_request, api_bulk_delete, api_flush, api_scopes, api_create_scope, api_toggle_scope,
  api_update_scope, api_delete_scope, api_rules, api_create_rule, api_toggle_rule, api_update_rule,
  api_delete_rule, api_test_rule, api_settings, api_put_settings, api_password, api_audit,
  api_version, matched, Web, pattern, registered, routes,
}
use ooblivion.Admin.Routes.Dispatch.{IsKept, routes-IsKept}

abbrev pub IsGet : Route → Type 0
IsGet route = has_prefix (pattern route) (codes "GET ") ≡ true

-- A pattern of the method GET is chosen for GET and HEAD, a pattern of another method only for it.
pub record IsMux (web : Web) : Type 0 where
  pub serves :
      (r : HttpRequest) (route : Route) (id : Str)
      → web.find r ≡ matched route id
      → has_prefix
          (pattern route)
          ((if str_eq r.method (codes "HEAD") then codes "GET" else r.method) ++ codes " ")
        ≡ true

module _ (P : Tables → Type 0) (site : Site) (web : Web) (now : ℕ) (random : Option Str)
    (r : HttpRequest) where
  -- A handler that is registered for GET keeps every invariant of the tables.
  pub get-IsKept :
      (route : Route) (id : Str)
      → IsGet route
      → IsKept P (registered site web route id r now random)
  unfolding registered pattern has_prefix dashboard_page show_version login_page
  get-IsKept static_files id get = tt
  get-IsKept login_form_page id get = Keeps-pure _
  get-IsKept api_login id get = ground (arith, get)
  get-IsKept dashboard_tree id get = Keeps-pure _
  get-IsKept dashboard_root id get = Keeps-pure _
  get-IsKept api_logout id get = ground (arith, get)
  get-IsKept requests_list_page id get = Keeps-requests_view site r
  get-IsKept request_page id get = Keeps-detail_view site r id
  get-IsKept scopes_list_page id get = Keeps-scopes_view site r
  get-IsKept rules_list_page id get = Keeps-notifications_view site r
  get-IsKept settings_form_page id get = Keeps-settings_view site r
  get-IsKept audit_list_page id get = Keeps-audit_view site r
  get-IsKept api_stats id get = Keeps-show_stats site now
  get-IsKept api_requests id get = Keeps-list_requests site r
  get-IsKept api_request id get = Keeps-get_request _ _ id
  get-IsKept api_download id get = Keeps-download_body site id
  get-IsKept api_save id get = ground (arith, get)
  get-IsKept api_unsave id get = ground (arith, get)
  get-IsKept api_delete_request id get = ground (arith, get)
  get-IsKept api_bulk_delete id get = ground (arith, get)
  get-IsKept api_flush id get = ground (arith, get)
  get-IsKept api_scopes id get = Keeps-show_scopes
  get-IsKept api_create_scope id get = ground (arith, get)
  get-IsKept api_toggle_scope id get = ground (arith, get)
  get-IsKept api_update_scope id get = ground (arith, get)
  get-IsKept api_delete_scope id get = ground (arith, get)
  get-IsKept api_rules id get = Keeps-show_rules
  get-IsKept api_create_rule id get = ground (arith, get)
  get-IsKept api_toggle_rule id get = ground (arith, get)
  get-IsKept api_update_rule id get = ground (arith, get)
  get-IsKept api_delete_rule id get = ground (arith, get)
  get-IsKept api_test_rule id get = ground (arith, get)
  get-IsKept api_settings id get = Keeps-show_settings site
  get-IsKept api_put_settings id get = ground (arith, get)
  get-IsKept api_password id get = ground (arith, get)
  get-IsKept api_audit id get = Keeps-list_audit
  get-IsKept api_version id get = Keeps-pure _

served :
    (p method : Str)
    → has_prefix p ((if str_eq method (codes "HEAD") then codes "GET" else method) ++ codes " ")
      ≡ true
    → (method ≡ codes "GET") ⊎ (method ≡ codes "HEAD")
    → has_prefix p (codes "GET ") ≡ true
unfolding str_eq
served p method h (inl e) = rw e at h
served p method h (inr e) = rw e at h

-- Where package net/http chooses patterns by their method, a GET or HEAD request to the console
-- changes no table, whatever it asks for and whichever statements fail.
pub routes-get :
    (site : Site) (web : Web) (now : ℕ) (random : Option Str) (r : HttpRequest) (w : World)
    → IsMux web
    → (r.method ≡ codes "GET") ⊎ (r.method ≡ codes "HEAD")
    → (routes site web now random r w).1.db ≡ w.db
routes-get site web now random r w mux asked =
    routes-IsKept (λ t. t ≡ w.db) site web now random r
      (λ route id found.
        get-IsKept (λ t. t ≡ w.db) site web now random r route id
          (served (pattern route) r.method (mux.serves r route id found) asked))
      w refl
