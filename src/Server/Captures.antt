-- ===== src/Server/Captures.antt =====
-- A captured request from ServeHTTP of cmd/ooblivion/main.go to the database: Store and Classify
-- together.
use ooblivion.Shared.{
  ℕ, suc, ◌≤◌, Str, codes, pos, max_int64, Bool, true, Option, none, some, List, [], ◌∷◌, ◌++◌, ◌≡◌,
  refl, ◌∙◌, arith, any, length, All, if◌then◌else◌,
}
use ooblivion.Exec.{ok}
use ooblivion.Matcher.{Subject}
use ooblivion.Models.{Request}
use ooblivion.Db.{Tables, World}
use ooblivion.Http.{Body, HttpRequest}
use ooblivion.Telegram.{Job}
use ooblivion.Telegram.Sender.{queue_size}
use ooblivion.Scheduler.Settings.{setting}
use ooblivion.Capture.{captured, store}
use ooblivion.Capture.Bodies.{kept, read_body_lem}
use ooblivion.Capture.Storing.{IdsBounded, numbered, stored_db, store_row-healthy, map-append_new}
use ooblivion.Capture.Classify.{
  enabled_scopes, enabled_rules, first_match, classify, apply_scope, apply_notifications,
}
use ooblivion.Capture.Saving.{healthy, saved_row, saved_rows, apply_scope-healthy}
use ooblivion.Capture.Alerts.{
  fires, alerts, offered, rules_db, value_or_empty, apply_notifications-healthy,
}
use ooblivion.Server.{RootHandler, answered, catch_all, subject_from_request, capture}

abbrev pub flagged : Bool → Request → Request
flagged hit r = if hit then record r { notified = true } else r

saved_rows-append :
    (n : ℕ) (o : Option ℕ) (rows : List Request) (x : Request)
    → x.id ≡ suc n
    → All (λ (r : Request). r.id ≤ n) rows
    → saved_rows (suc n) o (rows ++ x ∷ []) ≡ rows ++ saved_row (suc n) o x ∷ []
saved_rows-append n none rows x e h = refl
saved_rows-append n (some s) rows x e h =
    map-append_new (λ r. record r { saved = true; scope_id = some s }) n rows x h

saved_row-id : (n : ℕ) (o : Option ℕ) (x : Request) → (saved_row n o x).id ≡ x.id
saved_row-id n none x = refl
saved_row-id n (some s) x = ground arith

module _ (h : RootHandler) (now : ℕ) (r : HttpRequest) (w : World) (kept_body : Str × Bool) where
  abbrev pub new_row : Request
  new_row = numbered (captured h.capturing now r kept_body) w

  abbrev pub subject : Subject
  subject = subject_from_request h.unmarshal new_row

  abbrev pub scope : Option ℕ
  scope = first_match h.classifying.lib subject (enabled_scopes w.db)

  abbrev pub alerted : Bool
  alerted = any (fires h.classifying subject) (enabled_rules w.db)

  abbrev pub final_row : Request
  final_row = flagged alerted (saved_row new_row.id scope new_row)

  abbrev pub final_db : Tables
  final_db = record w.db {
    requests = w.db.requests ++ final_row ∷ [];
    last_request = suc w.db.last_request;
    total_captured = suc w.db.total_captured;
  }

  abbrev stored : World
  stored = record w {
    db = stored_db (suc w.db.total_captured) (captured h.capturing now r kept_body) w;
  }

  abbrev saved : World
  saved = record w {
    db = record w.db {
      requests = w.db.requests ++ saved_row new_row.id scope new_row ∷ [];
      last_request = suc w.db.last_request;
      total_captured = suc w.db.total_captured;
    };
  }

  scope_step :
      IdsBounded w.db
      → apply_scope h.classifying new_row subject (healthy stored) ≡ (ok tt, healthy saved)
  unfolding enabled_scopes
  scope_step b =
      apply_scope-healthy h.classifying new_row subject stored
      ∙ ground (arith, saved_rows-append w.db.last_request scope w.db.requests new_row refl b)

  rules_step : IdsBounded w.db → rules_db h.classifying new_row subject saved ≡ final_db
  unfolding enabled_rules
  rules_step b = ground (
    arith,
    map-append_new (λ (x : Request). record x { notified = true }) w.db.last_request w.db.requests
        (saved_row new_row.id scope new_row) b,
    saved_row-id new_row.id scope new_row,
  )

  -- The channel with the alerts of the enabled rules that match, in the order of their identifiers.
  abbrev pub final_queue : List Job
  final_queue = offered h.classifying.token w.queue (
      alerts h.classifying new_row subject
        (value_or_empty (setting (codes "public_url") w.db.settings)) (enabled_rules w.db))

  abbrev pub final_world : World
  final_world = record w { db = final_db; faults = []; queue = final_queue }

  notify_step :
      IdsBounded w.db
      → length w.queue ≤ queue_size
      → apply_notifications h.classifying new_row subject (healthy saved) ≡ (ok tt, final_world)
  unfolding enabled_rules
  notify_step b q =
      apply_notifications-healthy h.classifying new_row subject saved q
      ∙ ground (arith, rules_step b)

  classify_step :
      IdsBounded w.db
      → length w.queue ≤ queue_size
      → (classify h.classifying new_row subject (healthy stored)).1 ≡ final_world
  unfolding classify
  classify_step b q = rw (scope_step b) (rw (notify_step b q))

-- A captured request in a world without faults, under a body limit from 0 to 2^63 - 2, is answered
-- with an empty 200 and adds exactly one row: the request with its body cut to the limit, saved
-- under the chosen scope and flagged if a rule matches; the matching rules' alerts are queued, the
-- counter goes up by one, and nothing else changes.
pub capture_lem :
    (h : RootHandler) (now : ℕ) (r : HttpRequest) (w : World) (max_body : ℕ) (body : Body)
    → h.capturing.max_body ≡ pos max_body
    → suc max_body ≤ max_int64
    → r.body ≡ some body
    → IdsBounded w.db
    → length w.queue ≤ queue_size
    → capture h now r (healthy w) ≡ (answered catch_all, final_world h now r w (kept max_body body))
unfolding capture store
capture_lem h now r w max_body body limit small some_body b q = ground (
  arith,
  read_body_lem max_body body small,
  store_row-healthy h.capturing (captured h.capturing now r (kept max_body body)) w,
  classify_step h now r w (kept max_body body) b q,
)
