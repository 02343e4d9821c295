-- ===== src/Admin/Viewing/Rules.antt =====
-- The lists of scopes and rules, and the test of a rule, in internal/admin/handlers_rules.go.
use ooblivion.Shared.{
  ℤ, Str, codes, is_empty, true, not, ◌&&◌, Option, none, some, List, [], ◌∷◌, if◌then◌else◌,
}
use ooblivion.Exec.{Exec, ◌>>=◌, pure, raise, or_else}
use ooblivion.Models.{NotificationRule}
use ooblivion.Db.{Tables, World, query_row}
use ooblivion.Http.{HttpRequest}
use ooblivion.Telegram.Sender.{send_test}
use ooblivion.Admin.{
  scope_list, rule_list, success, Reply, Handler, problem_with, server_error, answer, path_id,
  is_id,
}
use ooblivion.Admin.Pages.{scopes_page, notifications_page}
use ooblivion.Admin.Rules.Scopes.{list_scopes}
use ooblivion.Admin.Rules.Notifications.{list_rules}
use ooblivion.Admin.Viewing.{Site, page_error, render}

-- handleListScopes
unfoldable pub show_scopes : Handler
unfolding list_scopes
show_scopes = do items ← or_else server_error list_scopes; pure (answer (scope_list items))

-- handleListRules
unfoldable pub show_rules : Handler
unfolding list_rules
show_rules = do items ← or_else server_error list_rules; pure (answer (rule_list items))

-- SELECT name FROM notification_rules WHERE id = ?
unfoldable pub rule_name : ℤ → List NotificationRule → Option Str
rule_name id [] = none
rule_name id (x ∷ rules) = if is_id id x.id then some x.name else rule_name id rules

module _ (site : Site) where
  -- handleScopesPage
  unfoldable pub scopes_view : HttpRequest → Handler
  unfolding list_scopes render
  scopes_view r = do
    items ← or_else page_error list_scopes
    pure (render site r true (scopes_page items))

  -- handleNotificationsPage
  unfoldable pub notifications_view : HttpRequest → Handler
  unfolding list_rules render
  notifications_view r = do
    items ← or_else page_error list_rules
    pure (
        render site r true (
          notifications_page items
            (not (is_empty site.bot.token) && not (is_empty site.bot.chat_id))))

  abbrev pub sent : Option Str → Exec World Reply Reply
  sent none = pure (answer success)
  sent (some reason) = raise (problem_with 502 reason)

  -- handleTestRule
  unfoldable pub test_rule : Str → Handler
  unfolding path_id rule_name send_test
  test_rule path_value = do
    id ← path_id path_value
    name ←
        or_else (λ e. problem_with 404 (codes "rule not found"))
          (query_row (λ (t : Tables). rule_name id t.notification_rules))
    if is_empty site.bot.chat_id
        then raise (problem_with 400 (codes "TELEGRAM_CHAT_ID not set"))
        else sent (send_test site.bot site.bot.chat_id)
