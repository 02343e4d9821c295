-- ===== src/Admin/Keeping/Viewing.antt =====
-- The handlers of internal/admin that only read keep every invariant of the tables.
use ooblivion.Shared.{ℕ, ℤ, Str, Bool, true, false, Option, none, some, List, []}
use ooblivion.Exec.{Result, ok, err, pure, ignore, ◌>>◌}
use ooblivion.Models.{Request}
use ooblivion.Db.{Tables, Error, rows_err}
use ooblivion.Db.Keeping.{Keeps, Keeps-pure, Keeps-raise, Keeps-bind, Keeps-try, Keeps-query}
use ooblivion.Http.{HttpRequest}
use ooblivion.Scheduler.{Clock}
use ooblivion.Admin.Keeping.{read_rules}
use ooblivion.Admin.Pagination.{PaginationData}
use ooblivion.Admin.Query.{QueryLib, RequestFilters, query_requests}
use ooblivion.Admin.Requests.{get_request}
use ooblivion.Admin.Rules.Scopes.{list_scopes}
use ooblivion.Admin.Rules.Notifications.{list_rules}
use ooblivion.Admin.Settings.{get_settings}
use ooblivion.Admin.Viewing.{Site, count, show_stats, show_settings, settings_view}
use ooblivion.Admin.Viewing.Requests.{
  column, on_page, page_parsed, stored_request, list_requests, requests_view, detail_view,
  download_body,
}
use ooblivion.Admin.Viewing.Audit.{list_audit, audit_view}
use ooblivion.Admin.Viewing.Rules.{
  sent, show_scopes, show_rules, scopes_view, notifications_view, test_rule,
}

module _ {P : Tables → Type 0} where
  Keeps-count : {E : Type 0} (f : Tables → ℕ) → Keeps P (count {E = E} f)
  unfolding count
  Keeps-count f = search read_rules depth 8

  Keeps-query_requests : (lib : QueryLib) (f : RequestFilters) → Keeps P (query_requests lib f)
  unfolding query_requests
  Keeps-query_requests lib f = search read_rules depth 10

  Keeps-list_scopes : Keeps P list_scopes
  unfolding list_scopes
  Keeps-list_scopes = search read_rules depth 8

  Keeps-list_rules : Keeps P list_rules
  unfolding list_rules
  Keeps-list_rules = search read_rules depth 8

  Keeps-column : {E : Type 0} (select : Tables → List Str) → Keeps P (column {E = E} select)
  unfolding column
  Keeps-column {E = E} select =
      Keeps-bind _ _ (Keeps-try _ (Keeps-query select)) (λ rows. shown rows)
    where
      shown :
          (rows : Result Error (List Str))
          → Keeps {E = E} {A = List Str} P
              (elim rows [ ok values ↦ ignore rows_err >> pure values | err e ↦ pure [] ])
      shown (ok values) = search read_rules depth 8
      shown (err e) = Keeps-pure []

  Keeps-page_parsed : (site : Site) (p : ℤ × Bool) → Keeps P (page_parsed site p)
  Keeps-page_parsed site (id, true) = record { at = λ w h. h }
  Keeps-page_parsed site (id, false) = record { at = λ w h. h }

  Keeps-stored_request : (site : Site) (id : Str) → Keeps P (stored_request site id)
  unfolding stored_request
  Keeps-stored_request site id = search (read_rules, Keeps-page_parsed) depth 10

  ruleset viewing_rules = (
    read_rules, Keeps-count, Keeps-query_requests, Keeps-list_scopes, Keeps-list_rules,
    Keeps-column, Keeps-stored_request,
  )

  pub Keeps-get_request :
      (clock : Clock) (trim : Str → Str) (id : Str) → Keeps P (get_request clock trim id)
  unfolding get_request
  Keeps-get_request clock trim id = search viewing_rules depth 10

  pub Keeps-show_stats : (site : Site) (now : ℕ) → Keeps P (show_stats site now)
  unfolding show_stats
  Keeps-show_stats site now = search viewing_rules depth 20

  pub Keeps-show_settings : (site : Site) → Keeps P (show_settings site)
  unfolding show_settings get_settings
  Keeps-show_settings site = search viewing_rules depth 16

  pub Keeps-settings_view : (site : Site) (r : HttpRequest) → Keeps P (settings_view site r)
  unfolding settings_view
  Keeps-settings_view site r = search viewing_rules depth 16

  pub Keeps-list_requests : (site : Site) (r : HttpRequest) → Keeps P (list_requests site r)
  unfolding list_requests
  Keeps-list_requests site r = search viewing_rules depth 10

  Keeps-on_page :
      (site : Site) (f : RequestFilters) (p : PaginationData) (found : List Request × ℕ)
      → Keeps P (on_page site f p found)
  unfolding on_page
  Keeps-on_page site f p found = search viewing_rules depth 10

  pub Keeps-requests_view : (site : Site) (r : HttpRequest) → Keeps P (requests_view site r)
  unfolding requests_view
  Keeps-requests_view site r = search (viewing_rules, Keeps-on_page) depth 16

  pub Keeps-detail_view :
      (site : Site) (r : HttpRequest) (id : Str) → Keeps P (detail_view site r id)
  unfolding detail_view
  Keeps-detail_view site r id = search viewing_rules depth 10

  pub Keeps-download_body : (site : Site) (id : Str) → Keeps P (download_body site id)
  unfolding download_body
  Keeps-download_body site id = search viewing_rules depth 10

  pub Keeps-list_audit : Keeps P list_audit
  unfolding list_audit
  Keeps-list_audit = search viewing_rules depth 10

  pub Keeps-audit_view : (site : Site) (r : HttpRequest) → Keeps P (audit_view site r)
  unfolding audit_view
  Keeps-audit_view site r = search viewing_rules depth 16

  pub Keeps-show_scopes : Keeps P show_scopes
  unfolding show_scopes
  Keeps-show_scopes = search viewing_rules depth 10

  pub Keeps-show_rules : Keeps P show_rules
  unfolding show_rules
  Keeps-show_rules = search viewing_rules depth 10

  pub Keeps-scopes_view : (site : Site) (r : HttpRequest) → Keeps P (scopes_view site r)
  unfolding scopes_view
  Keeps-scopes_view site r = search viewing_rules depth 10

  pub Keeps-notifications_view :
      (site : Site) (r : HttpRequest) → Keeps P (notifications_view site r)
  unfolding notifications_view
  Keeps-notifications_view site r = search viewing_rules depth 10

  Keeps-sent : (site : Site) (o : Option Str) → Keeps P (sent site o)
  Keeps-sent site none = Keeps-pure _
  Keeps-sent site (some reason) = Keeps-raise _

  pub Keeps-test_rule : (site : Site) (id : Str) → Keeps P (test_rule site id)
  unfolding test_rule
  Keeps-test_rule site id = search (viewing_rules, Keeps-sent) depth 16
