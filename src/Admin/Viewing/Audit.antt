-- ===== src/Admin/Viewing/Audit.antt =====
-- handleAudit and handleAuditPage, in internal/admin/handlers_requests.go and handlers_settings.go.
use ooblivion.Shared.{
  ℕ, ◌-◌, ◌*◌, ◌++◌, ℤ, pos, Str, codes, itoa_ℕ, str_eq, is_empty, Bool, true, ◌&&◌, ◌||◌, not,
  List, [], some, leb, filter, length, map, order_by, take, drop,
}
use ooblivion.Exec.{Result, ok, err, ◌>>=◌, pure, or_else, try}
use ooblivion.Models.{AuditEntry}
use ooblivion.Db.{Tables, Error, query, query_row}
use ooblivion.Http.{HttpRequest}
use ooblivion.Admin.{audit_list, Handler, server_error, answer}
use ooblivion.Admin.Pages.{audit_page}
use ooblivion.Admin.Pagination.{PaginationData, build_pagination, atoi_default}
use ooblivion.Admin.Viewing.{Site, page_error, sorted, render}

abbrev newest_first : List AuditEntry → List AuditEntry
newest_first rows = order_by (λ (a b : AuditEntry). leb b.id a.id) rows

-- handleAudit
unfoldable pub list_audit : Handler
list_audit = do
  rows ← or_else server_error (query (λ (t : Tables). take 200 (newest_first t.audit_log)))
  pure (answer (audit_list rows))

pub record AuditFilters : Type 0 where
  pub ip : Str
  pub action : Str
  pub failed : Str
  pub page : ℤ

abbrev or_none : {A : Type 0} → Result Error (List A) → List A
or_none (ok rows) = rows
or_none (err e) = []

module _ (site : Site) where
  unfoldable pub audit_filters : HttpRequest → AuditFilters
  unfolding atoi_default
  audit_filters r =
      let get = site.query_get r.raw_query in
      record {
        ip = get (codes "ip");
        action = get (codes "action");
        failed = get (codes "failed");
        page = atoi_default (get (codes "page")) (pos 1);
      }

  -- the WHERE clause
  unfoldable pub audited : AuditFilters → AuditEntry → Bool
  audited f e =
      (is_empty f.ip || site.queries.like_any f.ip e.ip)
      && (is_empty f.action || str_eq e.action f.action)
      && (not (str_eq f.failed (codes "on")) || site.queries.like_any (codes "failed") e.action)

  unfoldable pub audit_href : AuditFilters → ℕ → Str
  audit_href f n =
      codes "/admin/audit?ip="
      ++ (site.query_escape f.ip
          ++ (codes "&action="
              ++ (site.query_escape f.action
                  ++ (codes "&failed="
                      ++ (site.query_escape f.failed ++ (codes "&page=" ++ itoa_ℕ n))))))

  -- LIMIT ? OFFSET ?, for the page that is shown
  unfoldable pub audit_rows : AuditFilters → ℕ → Tables → List AuditEntry
  unfolding audited
  audit_rows f page t =
      take 20 (drop ((page - 1) * 20) (newest_first (filter (audited f) t.audit_log)))

  abbrev pub audit_pages : AuditFilters → ℕ → PaginationData
  audit_pages f total = build_pagination f.page 20 total (audit_href f)

  -- handleAuditPage
  unfoldable pub audit_view : HttpRequest → Handler
  unfolding audit_filters audited build_pagination audit_href audit_rows sorted render
  audit_view r = do
    total ←
        or_else page_error (
          query_row
            (λ (t : Tables). some (length (filter (audited (audit_filters r)) t.audit_log))))
    items ←
        or_else page_error
          (query (audit_rows (audit_filters r) (audit_pages (audit_filters r) total).page))
    actions ← try (query (λ (t : Tables). sorted (map (λ (e : AuditEntry). e.action) t.audit_log)))
    pure (
        render site r true (
          audit_page (record {
            items = items;
            pagination = audit_pages (audit_filters r) total;
            ip = (audit_filters r).ip;
            action = (audit_filters r).action;
            failed = str_eq (audit_filters r).failed (codes "on");
            actions = or_none actions;
          })))
