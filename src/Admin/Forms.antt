-- ===== src/Admin/Forms.antt =====
-- Forms of the console, in internal/admin/admin.go: formAware, formRedirectTarget, activeSection,
-- and what readJSONOrForm puts into a rulePayload.
pub mod Redirects
use ooblivion.Shared.{
  ℕ, ℤ, Str, codes, str_eq, is_empty, has_prefix, atoi, Bool, true, false, ◌||◌, Option, none, some,
  List, [], ◌∷◌, ◌++◌, ◌==◌, if◌then◌else◌,
}
use ooblivion.Exec.{Result, ok, err}
use ooblivion.Db.{World}
use ooblivion.Http.{HttpRequest, header_get}
use ooblivion.Admin.{Reply, Handler, reply_of, redirect, keep}
use ooblivion.Admin.Rules.{RulePayload}

-- the test of formAware and of readJSONOrForm
abbrev pub is_form : HttpRequest → Bool
is_form r =
    has_prefix (header_get r (codes "Content-Type")) (codes "application/x-www-form-urlencoded")

-- `base` of formRedirectTarget
unfoldable pub redirect_base : Str → Str
redirect_base path =
    if has_prefix path (codes "/admin/api/login")
    then codes "/admin/login"
    else if has_prefix path (codes "/admin/api/scopes")
    then codes "/admin/scopes"
    else if has_prefix path (codes "/admin/api/notifications")
    then codes "/admin/notifications"
    else if has_prefix path (codes "/admin/api/requests")
    then codes "/admin/requests"
    else if has_prefix path (codes "/admin/api/settings")
    then codes "/admin/settings"
    else if has_prefix path (codes "/admin/api/password")
    then codes "/admin/settings"
    else if has_prefix path (codes "/admin/api/flush")
    then codes "/admin/settings"
    else codes "/admin"

-- formRedirectTarget
unfoldable pub form_redirect_target : Str → Bool → Str
unfolding redirect_base
form_redirect_target path good =
    redirect_base path ++ codes "?flash=" ++ (if good then codes "success" else codes "error")

-- The writer behind formAware drops status and body; cookies are headers, which stay.
unfoldable pub redirected : Str → Reply → Reply
unfolding form_redirect_target
redirected path reply = record {
  status = 303;
  content = redirect (form_redirect_target path (reply.status == 200));
  session = reply.session;
}

-- formAware
unfoldable pub form_aware : Handler → HttpRequest → World → Reply × World
unfolding header_get redirected
form_aware next r w =
    let (result, w') = next w in
    if is_form r then (redirected r.path (reply_of result), w') else (reply_of result, w')

-- activeSection
unfoldable pub active_section : Str → Str
active_section path =
    if str_eq path (codes "/admin") || str_eq path (codes "/admin/")
    then codes "home"
    else if has_prefix path (codes "/admin/requests")
    then codes "requests"
    else if has_prefix path (codes "/admin/scopes")
    then codes "scopes"
    else if has_prefix path (codes "/admin/notifications")
    then codes "notifications"
    else if has_prefix path (codes "/admin/settings")
    then codes "settings"
    else if has_prefix path (codes "/admin/audit")
    then codes "audit"
    else codes ""

-- r.Form[name], and its first value if there is one
unfoldable pub form_value : Str → List (Str × List Str) → Option Str
form_value name [] = none
form_value name ((key, values) ∷ form) =
    if str_eq key name then elim values [ [] ↦ none | v ∷ vs ↦ some v ] else form_value name form

abbrev text_of : Option Str → Str
text_of none = codes ""
text_of (some v) = v

-- a field of type *string: an empty value leaves it nil
abbrev text_pointer : Option Str → Option Str
text_pointer none = none
text_pointer (some v) = if is_empty v then none else some v

abbrev is_on : Str → Bool
is_on v = str_eq v (codes "on") || str_eq v (codes "1") || str_eq v (codes "true")

abbrev flag_pointer : Option Str → Option Bool
flag_pointer none = none
flag_pointer (some v) = some (is_on v)

abbrev parsed_number : ℤ × Bool → Option ℤ
parsed_number (n, true) = some n
parsed_number (n, false) = none

abbrev number_pointer : Option Str → Option ℤ
number_pointer none = none
number_pointer (some v) = parsed_number (atoi v)

-- readJSONOrForm of a form into a zero rulePayload
unfoldable pub payload_of_form : List (Str × List Str) → RulePayload
unfolding form_value
payload_of_form form = record {
  name = text_of (form_value (codes "name") form);
  match_on = text_of (form_value (codes "match_on") form);
  match_type = text_of (form_value (codes "match_type") form);
  pattern = text_of (form_value (codes "pattern") form);
  header_name = text_pointer (form_value (codes "header_name") form);
  enabled = flag_pointer (form_value (codes "enabled") form);
  priority = number_pointer (form_value (codes "priority") form);
}
