-- ===== src/Admin/Viewing/Requests.antt =====
-- The list of requests, a request's page and the download of its body, in
-- internal/admin/handlers_requests.go.
use ooblivion.Shared.{
  ℕ, ◌++◌, ℤ, pos, negsuc, Str, codes, atoi, itoa, itoa_ℕ, is_empty, ltb_ℤ, Bool, true, false, not,
  List, [], ◌∷◌, ◌==◌, filter, length, map, take, if◌then◌else◌,
}
use ooblivion.Exec.{Result, ok, err, Exec, ◌>>=◌, ◌>>◌, pure, or_else, try, ignore}
use ooblivion.Models.{Request}
use ooblivion.Db.{Tables, World, Error, query, query_row, rows_err}
use ooblivion.Http.{HttpRequest}
use ooblivion.Auth.Tokens.{times}
use ooblivion.Admin.{listing, download, Reply, Handler, server_error, answer}
use ooblivion.Admin.Sizes.{human_bytes}
use ooblivion.Admin.Pages.{requests_page, detail_page}
use ooblivion.Admin.Pagination.{PaginationData, build_pagination, atoi_default}
use ooblivion.Admin.Query.{RequestFilters, query_requests, per_page}
use ooblivion.Admin.Display.{body_display_state, body_file_ext}
use ooblivion.Admin.Requests.{request_with}
use ooblivion.Admin.Viewing.{Site, failure, page_error, sorted, render}

-- `herr` and `cerr` are only logged; a failed query gives no rows
abbrev or_none : Result Error (List Str) → List Str
or_none (ok rows) = rows
or_none (err e) = []

module _ {E : Type 0} where
  unfoldable pub column : (Tables → List Str) → Exec World E (List Str)
  unfolding rows_err
  column select = do
    rows ← try (query select)
    elim rows [ ok values ↦ ignore rows_err >> pure values | err e ↦ pure [] ]

abbrev filled : List Str → List Str
filled values = filter (λ s. not (is_empty s)) values

-- distinctHosts and distinctCountries
unfoldable pub distinct_hosts : Tables → List Str
unfolding sorted
distinct_hosts t = take 200 (sorted (filled (map (λ (r : Request). r.host) t.requests)))

unfoldable pub distinct_countries : Tables → List Str
unfolding sorted
distinct_countries t = sorted (filled (map (λ (r : Request). r.ip_country) t.requests))

-- page * perPage < total, on int64
abbrev goes_on : ℤ → ℕ → Bool
goes_on page total = ltb_ℤ (times 20 page) (pos total)

module _ (site : Site) where
  unfoldable pub request_filters : HttpRequest → RequestFilters
  unfolding atoi_default
  request_filters r =
      let get = site.query_get r.raw_query in
      record {
        q = get (codes "q");
        method = get (codes "method");
        host = get (codes "host");
        saved = get (codes "saved");
        country = get (codes "country");
        scope_id = get (codes "scope_id");
        page = atoi_default (get (codes "page")) (pos 1);
      }

  -- handleListRequests
  unfoldable pub list_requests : HttpRequest → Handler
  unfolding request_filters query_requests times
  list_requests r = do
    found ← or_else server_error (query_requests site.queries (request_filters r))
    pure (
        answer (
          listing (record {
            items = found.0;
            page = (request_filters r).page;
            per_page = per_page site.queries;
            total = found.1;
            has_next = goes_on (request_filters r).page found.1;
          })))

  -- the link to a page of the list
  unfoldable pub list_href : RequestFilters → ℕ → Str
  list_href f n =
      codes "/admin/requests?q="
      ++ (site.query_escape f.q
          ++ (codes "&method="
              ++ (site.query_escape f.method
                  ++ (codes "&saved="
                      ++ (site.query_escape f.saved
                          ++ (codes "&host="
                              ++ (site.query_escape f.host
                                  ++ (codes "&country="
                                      ++ (site.query_escape f.country
                                          ++ (codes "&page=" ++ itoa_ℕ n))))))))))

  abbrev same_page : ℤ → ℕ → Bool
  same_page (pos a) b = a == b
  same_page (negsuc a) b = false

  abbrev pages_of : RequestFilters → ℕ → PaginationData
  pages_of f total = build_pagination f.page (per_page site.queries) total (list_href f)

  -- the second query, with the page that exists, and the page that is shown
  unfoldable pub on_page :
      RequestFilters → PaginationData → List Request × ℕ → Exec World Reply (List Request × ℕ)
  unfolding query_requests
  on_page f pagination found =
      if same_page f.page pagination.page
      then pure found
      else or_else page_error
          (query_requests site.queries (record f { page = pos pagination.page }))

  -- handleRequestsPage
  unfoldable pub requests_view : HttpRequest → Handler
  unfolding request_filters query_requests build_pagination list_href on_page column distinct_hosts
      distinct_countries render
  requests_view r = do
    first ← or_else page_error (query_requests site.queries (request_filters r))
    found ← on_page (request_filters r) (pages_of (request_filters r) first.1) first
    hosts ← column distinct_hosts
    countries ← column distinct_countries
    pure (
        render site r true (
          requests_page (record {
            items = found.0;
            total = found.1;
            hosts = hosts;
            countries = countries;
            q = (request_filters r).q;
            method = (request_filters r).method;
            host = (request_filters r).host;
            saved = (request_filters r).saved;
            country = (request_filters r).country;
            pagination = pages_of (request_filters r) first.1;
          })))

  -- strconv.ParseInt of the path's `id`, for a page
  abbrev pub page_parsed : ℤ × Bool → Exec World Reply ℤ
  page_parsed (id, true) w = (ok id, w)
  page_parsed (id, false) w = (err (failure 400 (codes "bad id")), w)

  unfoldable pub stored_request : Str → Exec World Reply (ℤ × Request)
  unfolding request_with
  stored_request path_value = do
    id ← page_parsed (atoi path_value)
    row ←
        or_else (λ e. failure 404 (codes "404 page not found"))
          (query_row (λ (t : Tables). request_with id t.requests))
    pure (id, row)

  abbrev has_rows : List (Str × Str) → Bool
  has_rows [] = false
  has_rows (row ∷ rows) = true

  -- handleDetailPage
  unfoldable pub detail_view : HttpRequest → Str → Handler
  unfolding stored_request body_display_state human_bytes render
  detail_view r path_value = do
    found ← stored_request path_value
    pure (
        render site r true (
          detail_page (record {
            request = found.1;
            headers = site.unmarshal found.1.request_headers;
            headers_present = has_rows (site.unmarshal found.1.request_headers);
            body_hidden = (body_display_state found.1.body).0;
            hidden_reason = (body_display_state found.1.body).1;
            body_size =
                if (body_display_state found.1.body).0
                then human_bytes (length found.1.body)
                else [];
          })))

  -- handleDownloadBody
  unfoldable pub download_body : Str → Handler
  unfolding stored_request body_file_ext
  download_body path_value = do
    found ← stored_request path_value
    pure (
        answer (
          download (record {
            filename =
                codes "request-"
                ++ (itoa found.0 ++ body_file_ext site.rules.lib.to_lower found.1.content_type);
            content = found.1.body;
          })))
