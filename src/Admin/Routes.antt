-- ===== src/Admin/Routes.antt =====
-- Routes of internal/admin/admin.go: the table of patterns with their handlers. Package net/http
-- chooses the pattern; the decoders of bodies, the file server and the random texts are parameters.
pub mod Dispatch
pub mod Mediation
pub mod Reading
use ooblivion.Shared.{
  ℕ, ℤ, Str, codes, str_eq, has_prefix, Bool, true, false, Option, none, some, List, ◌||◌,
  if◌then◌else◌,
}
use ooblivion.Exec.{Result}
use ooblivion.Db.{World}
use ooblivion.Http.{HttpRequest}
use ooblivion.Admin.{Reply, Handler, reply_of}
use ooblivion.Admin.Forms.{is_form, payload_of_form, form_aware}
use ooblivion.Admin.Rules.{RulePayload}
use ooblivion.Admin.Rules.Scopes.{create_scope, put_scope, switch_scope, delete_scope}
use ooblivion.Admin.Rules.Notifications.{create_rule, put_rule, switch_rule, delete_rule}
use ooblivion.Admin.Requests.{toggle_saved, delete_request, bulk_delete, get_request, flush_now}
use ooblivion.Admin.Settings.{SettingsBody, put_settings}
use ooblivion.Admin.Sessions.{auth}
use ooblivion.Admin.Sessions.Accounts.{login, logout, change_password}
use ooblivion.Admin.Viewing.{
  Site, login_page, dashboard_page, show_version, show_stats, show_settings, settings_view,
}
use ooblivion.Admin.Viewing.Requests.{list_requests, requests_view, detail_view, download_body}
use ooblivion.Admin.Viewing.Audit.{list_audit, audit_view}
use ooblivion.Admin.Viewing.Rules.{
  show_scopes, show_rules, scopes_view, notifications_view, test_rule,
}

-- the patterns, in the order of Routes
pub data Route : Type 0 where
  static_files login_form_page api_login : Route
  dashboard_tree dashboard_root api_logout : Route
  requests_list_page request_page scopes_list_page rules_list_page settings_form_page
        audit_list_page :
      Route
  api_stats api_requests api_request api_download api_save api_unsave api_delete_request
        api_bulk_delete api_flush :
      Route
  api_scopes api_create_scope api_toggle_scope api_update_scope api_delete_scope : Route
  api_rules api_create_rule api_toggle_rule api_update_rule api_delete_rule api_test_rule : Route
  api_settings api_put_settings api_password : Route
  api_audit api_version : Route

unfoldable pub pattern : Route → Str
pattern static_files = codes "GET /admin/static/"
pattern login_form_page = codes "GET /admin/login"
pattern api_login = codes "POST /admin/api/login"
pattern dashboard_tree = codes "GET /admin/"
pattern dashboard_root = codes "GET /admin"
pattern api_logout = codes "POST /admin/api/logout"
pattern requests_list_page = codes "GET /admin/requests"
pattern request_page = codes "GET /admin/requests/{id}"
pattern scopes_list_page = codes "GET /admin/scopes"
pattern rules_list_page = codes "GET /admin/notifications"
pattern settings_form_page = codes "GET /admin/settings"
pattern audit_list_page = codes "GET /admin/audit"
pattern api_stats = codes "GET /admin/api/stats"
pattern api_requests = codes "GET /admin/api/requests"
pattern api_request = codes "GET /admin/api/requests/{id}"
pattern api_download = codes "GET /admin/api/requests/{id}/download"
pattern api_save = codes "POST /admin/api/requests/{id}/save"
pattern api_unsave = codes "POST /admin/api/requests/{id}/unsave"
pattern api_delete_request = codes "DELETE /admin/api/requests/{id}"
pattern api_bulk_delete = codes "POST /admin/api/requests/bulk_delete"
pattern api_flush = codes "POST /admin/api/flush"
pattern api_scopes = codes "GET /admin/api/scopes"
pattern api_create_scope = codes "POST /admin/api/scopes"
pattern api_toggle_scope = codes "POST /admin/api/scopes/{id}/toggle"
pattern api_update_scope = codes "PUT /admin/api/scopes/{id}"
pattern api_delete_scope = codes "DELETE /admin/api/scopes/{id}"
pattern api_rules = codes "GET /admin/api/notifications"
pattern api_create_rule = codes "POST /admin/api/notifications"
pattern api_toggle_rule = codes "POST /admin/api/notifications/{id}/toggle"
pattern api_update_rule = codes "PUT /admin/api/notifications/{id}"
pattern api_delete_rule = codes "DELETE /admin/api/notifications/{id}"
pattern api_test_rule = codes "POST /admin/api/notifications/{id}/test"
pattern api_settings = codes "GET /admin/api/settings"
pattern api_put_settings = codes "PUT /admin/api/settings"
pattern api_password = codes "POST /admin/api/password"
pattern api_audit = codes "GET /admin/api/audit"
pattern api_version = codes "GET /admin/api/version"

-- what net/http finds for a request: a pattern with the value of its `{id}`, or its own answer
pub data Found : Type 0 where
  matched : Route → Str → Found
  unmatched : Reply → Found

-- `find` is the choice of http.ServeMux among the patterns above; the next five read a JSON body
-- (readJSON), `none` being its error; `parse_form` is r.ParseForm with r.Form
pub record Web : Type 0 where
  pub find : HttpRequest → Found
  pub static : HttpRequest → Reply
  pub read_password : HttpRequest → Option Str
  pub read_passwords : HttpRequest → Option (Str × Str)
  pub read_ids : HttpRequest → Option (List ℤ)
  pub read_settings : HttpRequest → Option SettingsBody
  pub read_payload : HttpRequest → Option RulePayload
  pub parse_form : HttpRequest → Option (List (Str × List Str))

abbrev form_payload : Option (List (Str × List Str)) → Option RulePayload
form_payload none = none
form_payload (some form) = some (payload_of_form form)

-- readJSONOrForm into a rulePayload
unfoldable pub payload_of : Web → HttpRequest → Option RulePayload
unfolding payload_of_form
payload_of web r = if is_form r then form_payload (web.parse_form r) else web.read_payload r

-- a handler without formAware
abbrev pub direct : Handler → World → Reply × World
direct next w = let (result, w') = next w in (reply_of result, w')

-- what is registered: the file server, a handler, and a handler inside `formAware`, `auth` or both
pub data Registered : Type 0 where
  files : Registered
  open_page : Handler → Registered
  open_form : Handler → Registered
  session_page : Handler → Registered
  session_form : Handler → Registered

module _ (site : Site) (web : Web) where
  -- the arguments of mux.Handle and mux.HandleFunc; `random` is what crypto/rand gives
  unfoldable pub registered : Route → Str → HttpRequest → ℕ → Option Str → Registered
  unfolding payload_of
  registered static_files id r now random = files
  registered login_form_page id r now random = open_page (login_page site r)
  registered api_login id r now random =
      open_form (login site.console r (web.read_password r) random now)
  registered dashboard_tree id r now random = session_page (dashboard_page site r)
  registered dashboard_root id r now random = session_page (dashboard_page site r)
  registered api_logout id r now random = session_form (logout site.console r now)
  registered requests_list_page id r now random = session_page (requests_view site r)
  registered request_page id r now random = session_page (detail_view site r id)
  registered scopes_list_page id r now random = session_page (scopes_view site r)
  registered rules_list_page id r now random = session_page (notifications_view site r)
  registered settings_form_page id r now random = session_page (settings_view site r)
  registered audit_list_page id r now random = session_page (audit_view site r)
  registered api_stats id r now random = session_page (show_stats site now)
  registered api_requests id r now random = session_page (list_requests site r)
  registered api_request id r now random =
      session_page (get_request site.rules.clock site.rules.trim_space id)
  registered api_download id r now random = session_page (download_body site id)
  registered api_save id r now random =
      session_form (toggle_saved site.rules.clock site.rules.trim_space r id true now)
  registered api_unsave id r now random =
      session_form (toggle_saved site.rules.clock site.rules.trim_space r id false now)
  registered api_delete_request id r now random =
      session_form (delete_request site.rules.clock site.rules.trim_space r id now)
  registered api_bulk_delete id r now random =
      session_form (bulk_delete site.rules.clock site.rules.trim_space r (web.read_ids r) now)
  registered api_flush id r now random =
      session_form (flush_now site.rules.clock site.rules.trim_space site.default_days r now)
  registered api_scopes id r now random = session_page show_scopes
  registered api_create_scope id r now random =
      session_form (create_scope site.rules r (payload_of web r) now)
  registered api_toggle_scope id r now random = session_form (switch_scope site.rules r id now)
  registered api_update_scope id r now random =
      session_form (put_scope site.rules r id (payload_of web r) now)
  registered api_delete_scope id r now random = session_form (delete_scope site.rules r id now)
  registered api_rules id r now random = session_page show_rules
  registered api_create_rule id r now random =
      session_form (create_rule site.rules r (payload_of web r) now)
  registered api_toggle_rule id r now random = session_form (switch_rule site.rules r id now)
  registered api_update_rule id r now random =
      session_form (put_rule site.rules r id (payload_of web r) now)
  registered api_delete_rule id r now random = session_form (delete_rule site.rules r id now)
  registered api_test_rule id r now random = session_form (test_rule site id)
  registered api_settings id r now random = session_page (show_settings site)
  registered api_put_settings id r now random =
      session_form (put_settings site.rules.clock site.rules.trim_space r (web.read_settings r) now)
  registered api_password id r now random =
      session_form (change_password site.console r (web.read_passwords r) random now)
  registered api_audit id r now random = session_page list_audit
  registered api_version id r now random = session_page (show_version site)

  abbrev pub dispatch : HttpRequest → ℕ → Registered → World → Reply × World
  dispatch r now files = λ w. (web.static r, w)
  dispatch r now (open_page next) = direct next
  dispatch r now (open_form next) = form_aware next r
  dispatch r now (session_page next) = direct (auth site.console next r now)
  dispatch r now (session_form next) = form_aware (auth site.console next r now) r

  abbrev pub handle : ℕ → Option Str → HttpRequest → Found → World → Reply × World
  handle now random r (matched route id) = dispatch r now (registered route id r now random)
  handle now random r (unmatched reply) = λ w. (reply, w)

  -- the handler that Routes returns; withSecurityHeaders only sets headers
  unfoldable pub routes : ℕ → Option Str → HttpRequest → World → Reply × World
  unfolding registered
  routes now random r w = handle now random r (web.find r) w
