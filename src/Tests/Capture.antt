-- ===== src/Tests/Capture.antt =====
-- internal/capture: what is stored, saved and alerted.
use ooblivion.Shared.{
  pos, order_by, filter, str_eq, contains, codes, List, [], some, true, ◌≡◌, ◌⊎◌, refl, arith,
}
use ooblivion.Exec.{ok, err}
use ooblivion.Models.{NotificationRule}
use ooblivion.Matcher.{Subject}
use ooblivion.Db.{driver}
use ooblivion.Capture.{read_body}
use ooblivion.Capture.Bodies.{read_body_lem}
use ooblivion.Capture.Classify.{enabled_scopes, first_match, apply_scope, apply_notifications}
use ooblivion.Capture.Scopes.{Chosen, first_match-Chosen}
use ooblivion.Capture.Saving.{saved_db, apply_scope_lem}
use ooblivion.Capture.Alerts.{IsListing, alerted, apply_notifications_lem}
use ooblivion.Tests.Samples.{ascii, classifying, old_request, tables, world, new_body}

abbrev subject : Subject
subject = record {
  method = codes "GET";
  host = codes "b.example";
  path = codes "/save/1";
  query = [];
  body = [];
  user_agent = [];
  source_ip = [];
  headers = [];
}

first_match_test : first_match ascii subject (enabled_scopes tables) ≡ some 2
unfolding first_match enabled_scopes order_by filter str_eq contains
first_match_test = refl

first_match-Chosen_example :
    Chosen ascii subject tables.scopes (first_match ascii subject (enabled_scopes tables))
first_match-Chosen_example = first_match-Chosen ascii subject tables

apply_scope_lem_example :
    ((apply_scope classifying old_request subject world).0 ≡ ok tt)
      × ((apply_scope classifying old_request subject world).1.db
          ≡ saved_db classifying old_request subject world)
    ⊎ ((apply_scope classifying old_request subject world).0 ≡ err driver)
      × ((apply_scope classifying old_request subject world).1.db ≡ tables)
apply_scope_lem_example = apply_scope_lem classifying old_request subject world

apply_notifications_lem_example :
    (rules : List NotificationRule) × IsListing tables.notification_rules rules
    × (apply_notifications classifying old_request subject world
        ≡ (ok tt, alerted classifying old_request subject world rules))
apply_notifications_lem_example =
    apply_notifications_lem classifying old_request subject world (omega arith)

read_body_lem_example : read_body (pos 4) (some new_body) ≡ some (codes "hell", true)
read_body_lem_example = read_body_lem 4 new_body (omega arith)
