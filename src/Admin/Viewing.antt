-- ===== src/Admin/Viewing.antt =====
-- The handlers of internal/admin that only read. Where the code reads rows without looking at
-- rows.Err, the rows are whole.
pub mod Requests
pub mod Audit
pub mod Rules
use ooblivion.Shared.{
  ℕ, zero, suc, ◌+◌, ◌*◌, ℤ, pos, negsuc, Str, codes, str_eq, str_lt, is_empty, Bool, true, false,
  not, ◌&&◌, Option, none, some, List, [], ◌∷◌, any, filter, length, order_by, if◌then◌else◌,
}
use ooblivion.Exec.{Result, ok, err, Exec, ◌>>=◌, ◌>>◌, pure, gets, try}
use ooblivion.Models.{Request, Stats}
use ooblivion.Db.{Tables, World, Error, query, query_row}
use ooblivion.Http.{HttpRequest}
use ooblivion.Telegram.Sender.{Bot}
use ooblivion.Scheduler.{retention_days}
use ooblivion.Scheduler.Settings.{read_setting}
use ooblivion.Version.{Build, version_string}
use ooblivion.Admin.{
  Content, current_settings, statistics, build_info, html, plain, Reply, keep, Handler,
  problem_with, answer,
}
use ooblivion.Admin.Pages.{Page, Rendered, SettingsPage, login_form, dashboard, settings_page}
use ooblivion.Admin.Forms.{active_section}
use ooblivion.Admin.Query.{QueryLib}
use ooblivion.Admin.Rules.{RulesLib}
use ooblivion.Admin.Sessions.{Console}
use ooblivion.Admin.Settings.{get_settings}

-- the fields of Server and its configuration, and what the handlers use of packages net/url, time
-- and encoding/json: `query_get raw name` is r.URL.Query().Get(name), `start_of_day now` the text of
-- the day's first second
pub record Site : Type 0 where
  pub console : Console
  pub rules : RulesLib
  pub queries : QueryLib
  pub bot : Bot
  pub thread_id : Str
  pub default_days : ℤ
  pub build : Build
  pub query_get : Str → Str → Str
  pub query_escape : Str → Str
  pub start_of_day : ℕ → Str
  pub unmarshal : Str → List (Str × Str)

-- http.Error
abbrev pub failure : ℕ → Str → Reply
failure status text = record { status = status; content = plain text; session = keep }

abbrev pub page_error : Error → Reply
page_error e = failure 500 (codes "server error")

-- the distinct values of a column that are not empty, ORDER BY in ascending order
unfoldable pub distinct : List Str → List Str
distinct [] = []
distinct (s ∷ rest) = let kept = distinct rest in if any (str_eq s) kept then kept else s ∷ kept

unfoldable pub sorted : List Str → List Str
unfolding distinct
sorted column = order_by (λ a b. not (str_lt b a)) (distinct column)

-- `_ = db.QueryRow(...).Scan(&n)`: a failure leaves 0
abbrev or_zero : Result Error ℕ → ℕ
or_zero (ok n) = n
or_zero (err e) = 0

module _ {E : Type 0} where
  unfoldable pub count : (Tables → ℕ) → Exec World E ℕ
  count f = do n ← try (query_row (λ (t : Tables). some (f t))); pure (or_zero n)

abbrev not_before : Str → Request → Bool
not_before start r = not (str_lt r.created_at start)

module _ (site : Site) where
  -- render: the page with the version and the section
  unfoldable pub render : HttpRequest → Bool → Page → Reply
  unfolding active_section version_string
  render r authed page = answer (
      html (record {
        page = page;
        authed = authed;
        version = version_string site.build;
        active = active_section r.path;
      }))

  -- handleLoginPage
  unfoldable pub login_page : HttpRequest → Handler
  unfolding render
  login_page r = pure (render r false login_form)

  -- handleDashboard
  unfoldable pub dashboard_page : HttpRequest → Handler
  unfolding render
  dashboard_page r = pure (render r true dashboard)

  -- handleVersion
  unfoldable pub show_version : Handler
  show_version = pure (answer (build_info site.build))

  -- handleStats
  unfoldable pub show_stats : ℕ → Handler
  unfolding count
  show_stats now = do
    total ← count (λ t. t.total_captured)
    saved ← count (λ t. length (filter (λ (r : Request). r.saved) t.requests))
    today ← count (λ t. length (filter (not_before (site.start_of_day now)) t.requests))
    scopes ← count (λ t. length t.scopes)
    rules ← count (λ t. length t.notification_rules)
    last ← gets (λ w. w.last_flush_at)
    pure (
        answer (
          statistics (record {
            total = total;
            saved = saved;
            today = today;
            scope_count = scopes;
            rule_count = rules;
            last_flush_at = last;
          })))

  -- handleGetSettings
  unfoldable pub show_settings : Handler
  unfolding get_settings
  show_settings = do
    settings ← get_settings site.default_days site.bot.token site.bot.chat_id
    pure (answer (current_settings settings))

  -- handleSettingsPage
  unfoldable pub settings_view : HttpRequest → Handler
  unfolding read_setting retention_days render
  settings_view r = do
    url ← read_setting (codes "public_url")
    days ← retention_days site.default_days
    flag ← read_setting (codes "auto_flush_enabled")
    last ← gets (λ w. w.last_flush_at)
    pure (
        render r true (
          settings_page (record {
            public_url = url;
            retention_days = days;
            auto_flush = not (str_eq flag (codes "0"));
            telegram_token = not (is_empty site.bot.token);
            telegram_chat_id = site.bot.chat_id;
            telegram_thread_id = site.thread_id;
            last_flush_at = last;
          })))
