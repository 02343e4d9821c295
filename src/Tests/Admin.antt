-- ===== src/Tests/Admin.antt =====
-- The other handlers of internal/admin.
use ooblivion.Shared.{
  ◌≡◌, ◌⊎◌, inl, refl, ℕ, ◌-◌, ◌*◌, ◌≤◌, ◌<◌, pos, Str, codes, str_eq, atoi, itoa, digits_value,
  parse_digits, has_prefix, length, All, Member, any, true, false, none, some, [], ◌∷◌, ◌++◌,
}
use ooblivion.Exec.{ok, err}
use ooblivion.Db.{query_row, faulty, answered, logged}
use ooblivion.Http.{HttpRequest, header_get, canonical_from, values_of}
use ooblivion.Capture.Saving.{healthy}
use ooblivion.Scheduler.{retention_days}
use ooblivion.Scheduler.Settings.{setting, read_setting}
use ooblivion.Admin.{success, answer, problem_with}
use ooblivion.Admin.Rules.{RulesLib}
use ooblivion.Admin.Rules.Scopes.{delete_scope}
use ooblivion.Admin.Rules.Deleting.{audited, scope_deleted, delete_scope_lem}
use ooblivion.Admin.Requests.{delete_request}
use ooblivion.Admin.Requests.Keeping.{delete_request-logged}
use ooblivion.Admin.Pagination.{build_pagination}
use ooblivion.Admin.Pagination.Window.{LinkOf, build_pagination_lem}
use ooblivion.Admin.Pages.{SettingsAnswer}
use ooblivion.Admin.Settings.{SettingsBody, get_settings, put_settings}
use ooblivion.Admin.Settings.Stored.{changed, shown, get_settings-put_settings}
use ooblivion.Admin.Forms.{is_form}
use ooblivion.Tests.Samples.{ascii, clock, trim_none, old_request, world, visit}

abbrev pub rules : RulesLib
rules = record { clock = clock; lib = ascii; trim_space = trim_none; quote = trim_none }

one_lem : atoi (codes "1") ≡ (pos 1, true)
unfolding atoi parse_digits digits_value
one_lem = refl

delete_scope_lem_example : delete_scope rules visit (codes "1") 9 (healthy world) ≡ (
  ok (answer success),
  healthy (record world {
    db =
        audited rules visit
          (codes "1")
          9
          world
          (codes "scope_delete")
          (codes "scope " ++ itoa (pos 1) ++ codes " deleted")
          (scope_deleted rules visit (codes "1") 9 world (pos 1));
  }),
)
delete_scope_lem_example = delete_scope_lem rules visit (codes "1") 9 world (pos 1) one_lem

logged_lem : logged world.db old_request.id ≡ true
unfolding any
logged_lem = refl

delete_request-logged_example :
    delete_request clock trim_none visit (codes "1") 9 (healthy world)
    ≡ (err (problem_with 500 (codes "server error")), healthy world)
delete_request-logged_example =
    delete_request-logged clock trim_none visit 9 world (codes "1") old_request one_lem (inl refl)
      logged_lem

abbrev link : ℕ → Str
link n = n ∷ []

build_pagination_lem_example :
    let p = build_pagination (pos 9) 20 45 link in
    (1 ≤ p.page)
    × (p.page ≤ p.pages)
    × ((n : ℕ) → pos 9 ≡ pos n → 1 ≤ n → n ≤ p.pages → p.page ≡ n)
    × (45 ≤ p.pages * 20)
    × ((p.pages ≡ 1) ⊎ ((p.pages - 1) * 20 < 45))
    × (length p.numbers ≤ 5)
    × All (LinkOf link p.page 1 p.pages) p.numbers
    × Member (record { number = p.page; active = true; href = link p.page }) p.numbers
build_pagination_lem_example = build_pagination_lem (pos 9) 45 link

abbrev change : SettingsBody
change = record {
  public_url = none;
  retention_days = some (pos 7);
  auto_flush_enabled = some false;
}

abbrev old_answer : SettingsAnswer
old_answer = shown (pos 30) (codes "t") (codes "1") world.last_flush_at world.db.settings

get_settings_lem : (get_settings (pos 30) (codes "t") (codes "1") (healthy world)).0 ≡ ok old_answer
unfolding get_settings read_setting retention_days query_row faulty answered setting str_eq atoi
get_settings_lem = refl

get_settings-put_settings_example :
    (get_settings
      (pos 30)
      (codes "t")
      (codes "1")
      (healthy (put_settings clock trim_none visit (some change) 9 (healthy world)).1)).0
    ≡ ok (changed change old_answer)
get_settings-put_settings_example =
    get_settings-put_settings clock trim_none visit change 9 (pos 30) (codes "t") (codes "1") world
      old_answer refl get_settings_lem

abbrev form : HttpRequest
form = record visit {
  header = (codes "Content-Type", codes "application/x-www-form-urlencoded" ∷ []) ∷ [];
}

form_lem : is_form form ≡ true
unfolding header_get canonical_from values_of str_eq has_prefix
form_lem = refl
