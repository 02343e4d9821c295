-- ===== src/Consistency/Runs.antt =====
-- Every run of the program keeps the tables consistent: cmd/ooblivion/main.go with all that it uses.
use ooblivion.Shared.{ℕ, pos, arith, codes, Str, has_prefix, true, false, ◌&&◌, Option}
use ooblivion.Exec.{Result, ok, err, modify}
use ooblivion.Db.{Tables, World}
use ooblivion.Db.Keeping.{Keeps, Keeps-pure, Keeps-modify}
use ooblivion.Http.{HttpRequest}
use ooblivion.Server.{Served, serve_http, is_health_probe, is_admin_host}
use ooblivion.Server.Setup.{SetupError}
use ooblivion.Admin.Keeping.Sessions.{Keeps-login}
use ooblivion.Admin.Keeping.Viewing.{
  Keeps-get_request, Keeps-show_stats, Keeps-show_settings, Keeps-settings_view,
  Keeps-list_requests, Keeps-requests_view, Keeps-detail_view, Keeps-download_body,
  Keeps-list_audit, Keeps-audit_view, Keeps-show_scopes, Keeps-show_rules, Keeps-scopes_view,
  Keeps-notifications_view, Keeps-test_rule,
}
use ooblivion.Admin.Viewing.{Site, dashboard_page, login_page, show_version}
use ooblivion.Admin.Routes.{
  Route, static_files, login_form_page, api_login, dashboard_tree, dashboard_root, api_logout,
  requests_list_page, request_page, scopes_list_page, rules_list_page, settings_form_page,
  audit_list_page, api_stats, api_requests, api_request, api_download, api_save, api_unsave,
  api_delete_request, api_bulk_delete, api_flush, api_scopes, api_create_scope, api_toggle_scope,
  api_update_scope, api_delete_scope, api_rules, api_create_rule, api_toggle_rule, api_update_rule,
  api_delete_rule, api_test_rule, api_settings, api_put_settings, api_password, api_audit,
  api_version, Web, registered, routes,
}
use ooblivion.Admin.Routes.Dispatch.{IsKept, routes-IsKept}
use ooblivion.Consistency.{IsConsistent}
use ooblivion.Consistency.Statements.{either}
use ooblivion.Consistency.Logs.{Allows-insert_audit}
use ooblivion.Consistency.Effects.{Keeps-run_once, handler_rules}
use ooblivion.Consistency.Handlers.{
  Keeps-create_scope, Keeps-put_scope, Keeps-switch_scope, Keeps-delete_scope, Keeps-create_rule,
  Keeps-put_rule, Keeps-switch_rule, Keeps-delete_rule, Keeps-toggle_saved, Keeps-delete_request,
  Keeps-bulk_delete, Keeps-flush_now, Keeps-put_settings,
}
use ooblivion.Consistency.Accounts.{Keeps-logout, Keeps-change_password}
use ooblivion.Consistency.Capturing.{capture-IsConsistent, run_one-IsConsistent, Keeps-ensure_auth}
use ooblivion.Program.{
  Program, State, down, up, migrated, fresh, root_at, boot, booted, served, Step, start, serve,
  deliver, maintain, stop, Reach, created, stepped,
}

module _ (site : Site) (web : Web) (now : ℕ) (random : Option Str) (r : HttpRequest) where
  abbrev P : Tables → Type 0
  P = IsConsistent site.rules

  registered-IsKept :
      (route : Route) (id : Str) → IsKept P (registered site web route id r now random)
  unfolding registered dashboard_page show_version login_page
  registered-IsKept static_files id = tt
  registered-IsKept login_form_page id = Keeps-pure _
  registered-IsKept api_login id = Keeps-login Allows-insert_audit site.console r _ random now
  registered-IsKept dashboard_tree id = Keeps-pure _
  registered-IsKept dashboard_root id = Keeps-pure _
  registered-IsKept api_logout id = Keeps-logout site.console r now
  registered-IsKept requests_list_page id = Keeps-requests_view site r
  registered-IsKept request_page id = Keeps-detail_view site r id
  registered-IsKept scopes_list_page id = Keeps-scopes_view site r
  registered-IsKept rules_list_page id = Keeps-notifications_view site r
  registered-IsKept settings_form_page id = Keeps-settings_view site r
  registered-IsKept audit_list_page id = Keeps-audit_view site r
  registered-IsKept api_stats id = Keeps-show_stats site now
  registered-IsKept api_requests id = Keeps-list_requests site r
  registered-IsKept api_request id = Keeps-get_request _ _ id
  registered-IsKept api_download id = Keeps-download_body site id
  registered-IsKept api_save id = Keeps-toggle_saved _ _ r id true now
  registered-IsKept api_unsave id = Keeps-toggle_saved _ _ r id false now
  registered-IsKept api_delete_request id = Keeps-delete_request _ _ r id now
  registered-IsKept api_bulk_delete id = Keeps-bulk_delete _ _ r _ now
  registered-IsKept api_flush id = Keeps-flush_now _ _ site.default_days r now
  registered-IsKept api_scopes id = Keeps-show_scopes
  registered-IsKept api_create_scope id = Keeps-create_scope r _ now
  registered-IsKept api_toggle_scope id = Keeps-switch_scope r id now
  registered-IsKept api_update_scope id = Keeps-put_scope r id _ now
  registered-IsKept api_delete_scope id = Keeps-delete_scope r id now
  registered-IsKept api_rules id = Keeps-show_rules
  registered-IsKept api_create_rule id = Keeps-create_rule r _ now
  registered-IsKept api_toggle_rule id = Keeps-switch_rule r id now
  registered-IsKept api_update_rule id = Keeps-put_rule r id _ now
  registered-IsKept api_delete_rule id = Keeps-delete_rule r id now
  registered-IsKept api_test_rule id = Keeps-test_rule site id
  registered-IsKept api_settings id = Keeps-show_settings site
  registered-IsKept api_put_settings id = Keeps-put_settings _ _ r _ now
  registered-IsKept api_password id = Keeps-change_password site.console r _ random now
  registered-IsKept api_audit id = Keeps-list_audit
  registered-IsKept api_version id = Keeps-pure _

  pub routes-IsConsistent :
      (w : World)
      → IsConsistent site.rules w.db
      → IsConsistent site.rules (routes site web now random r w).1.db
  routes-IsConsistent w h =
      routes-IsKept P site web now random r (λ route id found. registered-IsKept route id) w h

module _ (p : Program) where
  -- The condition of a state's tables.
  abbrev pub IsSound : State → Type 0
  IsSound (down t) = IsConsistent p.site.rules t
  IsSound (up w) = IsConsistent p.site.rules w.db

  abbrev IsFine : Served × World → Type 0
  IsFine out = IsConsistent p.site.rules out.1.db

  serve_http-IsConsistent :
      (now : ℕ) (random : Option Str) (r : HttpRequest) (w : World)
      → IsConsistent p.site.rules w.db
      → IsConsistent p.site.rules (serve_http (root_at p now random) now r w).1.db
  unfolding serve_http root_at
  serve_http-IsConsistent now random r w h =
      either IsFine (is_health_probe (root_at p now random) r) _ _ h (
        either IsFine (has_prefix r.path (codes "/admin") && is_admin_host (root_at p now random) r)
          _ _ (routes-IsConsistent p.site p.web now random r w h)
          (capture-IsConsistent (root_at p now random) now r w h))

  Keeps-last_flush :
      (text : Str)
      → Keeps
          (IsConsistent p.site.rules)
          (modify {S = World} {E = SetupError} (λ w. record w { last_flush_at = text }))
  Keeps-last_flush text = Keeps-modify _ (λ w h. h)

  Keeps-boot : (salt : Option Str) (now : ℕ) → Keeps (IsConsistent p.site.rules) (boot p salt now)
  unfolding boot
  Keeps-boot salt now =
      search (handler_rules, Keeps-ensure_auth, Keeps-run_once, Keeps-last_flush) depth 16

  booted-IsSound :
      (o : Result SetupError (Unit {0}) × World)
      → IsConsistent p.site.rules o.1.db
      → IsSound (booted p o)
  booted-IsSound (ok tt, w) h = h
  booted-IsSound (err e, w) h = h

  -- A step keeps the tables consistent, whatever faults it meets.
  pub Step-IsSound : (s s' : State) → Step p s s' → IsSound s → IsSound s'
  unfolding served
  Step-IsSound _ _ (start t faults salt now) h =
      booted-IsSound _ ((Keeps-boot salt now).at (fresh faults t) h)
  Step-IsSound _ _ (serve w faults now random r) h =
      serve_http-IsConsistent now random r (record w { faults = faults }) h
  Step-IsSound _ _ (deliver w faults now) h =
      run_one-IsConsistent p.site.bot now (record w { faults = faults }) h
  Step-IsSound _ _ (maintain w faults now) h =
      (Keeps-run_once p.site.console.clock (pos 30) now).at (record w { faults = faults }) h
  Step-IsSound _ _ (stop w) h = h

  migrated-IsConsistent : IsConsistent p.site.rules migrated
  migrated-IsConsistent = (
    record { numbered = omega arith; scope_keys = tt; kept = tt },
    record { numbered = omega arith; valid = tt },
    record { numbered = omega arith; valid = tt },
    record { numbered = omega arith; rule_keys = tt; request_keys = tt },
    omega arith,
    tt,
  )

  -- In every state that the program reaches from a new database, through any steps with any faults
  -- of the database, the tables are consistent: the identifiers of each table ascend up to the
  -- last one given, every foreign key refers to a row, a request with a scope is saved, every
  -- stored scope and rule passes the console's check, and every stored retention is a number from
  -- 1 to 3650.
  pub Reach-IsSound : (s : State) → Reach p s → IsSound s
  Reach-IsSound _ created = migrated-IsConsistent
  Reach-IsSound _ (stepped s s' reach step) = Step-IsSound s s' step (Reach-IsSound s reach)
