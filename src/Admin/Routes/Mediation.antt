-- ===== src/Admin/Routes/Mediation.antt =====
-- What a request without a session can change, through Routes of internal/admin/admin.go.
use ooblivion.Shared.{ℕ, ◌≡◌, refl, subst, sym, arith, Str, Option}
use ooblivion.Exec.{err}
use ooblivion.Db.{Tables, World}
use ooblivion.Db.Audit.{insert_audit}
use ooblivion.Db.Keeping.{Allows, Keeps, Keeps-pure}
use ooblivion.Http.{HttpRequest}
use ooblivion.Admin.{Handler}
use ooblivion.Admin.Viewing.{Site, login_page}
use ooblivion.Admin.Sessions.{current_claims, auth}
use ooblivion.Admin.Sessions.Guard.{auth_lem}
use ooblivion.Admin.Keeping.Sessions.{Keeps-login}
use ooblivion.Admin.Routes.{
  Route, static_files, login_form_page, api_login, dashboard_tree, dashboard_root, api_logout,
  requests_list_page, request_page, scopes_list_page, rules_list_page, settings_form_page,
  audit_list_page, api_stats, api_requests, api_request, api_download, api_save, api_unsave,
  api_delete_request, api_bulk_delete, api_flush, api_scopes, api_create_scope, api_toggle_scope,
  api_update_scope, api_delete_scope, api_rules, api_create_rule, api_toggle_rule, api_update_rule,
  api_delete_rule, api_test_rule, api_settings, api_put_settings, api_password, api_audit,
  api_version, Found, matched, unmatched, Web, Registered, files, open_page, open_form,
  session_page, session_form, registered, dispatch, handle, routes,
}
use ooblivion.Admin.Routes.Dispatch.{form_aware-world, form_aware-IsKept}

-- All tables but the audit log are as before.
abbrev pub IsLoggedOnly : Tables → Tables → Type 0
IsLoggedOnly before after =
    after ≡ record before { audit_log = after.audit_log; last_audit = after.last_audit }

Allows-audit :
    (t : Tables) (action detail ip now : Str)
    → Allows (IsLoggedOnly t) (insert_audit action detail ip now)
unfolding insert_audit
Allows-audit t action detail ip now = record { then_holds = λ u v b e h. ground (arith, e, h) }

module _ (site : Site) (web : Web) (now : ℕ) (random : Option Str) (r : HttpRequest)
    (w : World) where
  -- What is registered without `auth` writes only the audit log.
  abbrev IsHarmless : Registered → Type 0
  IsHarmless files = Unit
  IsHarmless (open_page next) = Keeps (IsLoggedOnly w.db) next
  IsHarmless (open_form next) = Keeps (IsLoggedOnly w.db) next
  IsHarmless (session_page next) = Unit
  IsHarmless (session_form next) = Unit

  registered-IsHarmless :
      (route : Route) (id : Str) → IsHarmless (registered site web route id r now random)
  unfolding registered login_page
  registered-IsHarmless login_form_page id = Keeps-pure _
  registered-IsHarmless api_login id = Keeps-login (Allows-audit w.db) site.console r _ _ now
  registered-IsHarmless static_files id = tt
  registered-IsHarmless dashboard_tree id = tt
  registered-IsHarmless dashboard_root id = tt
  registered-IsHarmless api_logout id = tt
  registered-IsHarmless requests_list_page id = tt
  registered-IsHarmless request_page id = tt
  registered-IsHarmless scopes_list_page id = tt
  registered-IsHarmless rules_list_page id = tt
  registered-IsHarmless settings_form_page id = tt
  registered-IsHarmless audit_list_page id = tt
  registered-IsHarmless api_stats id = tt
  registered-IsHarmless api_requests id = tt
  registered-IsHarmless api_request id = tt
  registered-IsHarmless api_download id = tt
  registered-IsHarmless api_save id = tt
  registered-IsHarmless api_unsave id = tt
  registered-IsHarmless api_delete_request id = tt
  registered-IsHarmless api_bulk_delete id = tt
  registered-IsHarmless api_flush id = tt
  registered-IsHarmless api_scopes id = tt
  registered-IsHarmless api_create_scope id = tt
  registered-IsHarmless api_toggle_scope id = tt
  registered-IsHarmless api_update_scope id = tt
  registered-IsHarmless api_delete_scope id = tt
  registered-IsHarmless api_rules id = tt
  registered-IsHarmless api_create_rule id = tt
  registered-IsHarmless api_toggle_rule id = tt
  registered-IsHarmless api_update_rule id = tt
  registered-IsHarmless api_delete_rule id = tt
  registered-IsHarmless api_test_rule id = tt
  registered-IsHarmless api_settings id = tt
  registered-IsHarmless api_put_settings id = tt
  registered-IsHarmless api_password id = tt
  registered-IsHarmless api_audit id = tt
  registered-IsHarmless api_version id = tt

  refused :
      (next : Handler)
      → (current_claims site.console r now w).0 ≡ err tt
      → IsLoggedOnly w.db (auth site.console next r now w).1.db
  refused next h = ground (arith, (auth_lem site.console next r now w h).1)

  dispatch-IsLoggedOnly :
      (o : Registered)
      → IsHarmless o
      → (current_claims site.console r now w).0 ≡ err tt
      → IsLoggedOnly w.db (dispatch site web r now o w).1.db
  dispatch-IsLoggedOnly files k h = refl
  dispatch-IsLoggedOnly (open_page next) k h = k.at w refl
  dispatch-IsLoggedOnly (open_form next) k h = form_aware-IsKept (IsLoggedOnly w.db) next r k w refl
  dispatch-IsLoggedOnly (session_page next) k h = refused next h
  dispatch-IsLoggedOnly (session_form next) k h =
      subst (λ (v : World). IsLoggedOnly w.db v.db)
        (sym (form_aware-world (auth site.console next r now) r w)) (refused next h)

  handle-IsLoggedOnly :
      (found : Found)
      → (current_claims site.console r now w).0 ≡ err tt
      → IsLoggedOnly w.db (handle site web now random r found w).1.db
  handle-IsLoggedOnly (matched route id) h =
      dispatch-IsLoggedOnly _ (registered-IsHarmless route id) h
  handle-IsLoggedOnly (unmatched reply) h = refl

  -- Whatever pattern package net/http chooses, a request to the console whose session is not valid
  -- changes no table but the audit log, which a login writes.
  pub routes-IsLoggedOnly :
      (current_claims site.console r now w).0 ≡ err tt
      → IsLoggedOnly w.db (routes site web now random r w).1.db
  unfolding routes
  routes-IsLoggedOnly h = handle-IsLoggedOnly (web.find r) h
