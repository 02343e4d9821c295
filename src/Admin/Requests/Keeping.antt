-- ===== src/Admin/Requests/Keeping.antt =====
-- Saving, flushing and deleting requests from the console, in internal/admin/handlers_requests.go.
use ooblivion.Shared.{
  ◌≡◌, refl, sym, subst, arith, ℕ, ℤ, pos, Str, codes, atoi, Bool, true, List, ◌==◌, filter, map,
  Member, if◌then◌else◌,
}
use ooblivion.Shared.Select.{any_of_Member, Member-filter, filter-Member, Member-map}
use ooblivion.Exec.{err}
use ooblivion.Models.{Request}
use ooblivion.Db.{World, exec, faulty, answered, logged, delete_requests}
use ooblivion.Db.Audit.{insert_audit}
use ooblivion.Http.{HttpRequest}
use ooblivion.Capture.Saving.{healthy}
use ooblivion.Scheduler.{Clock, flush}
use ooblivion.Scheduler.Retention.{flush-saved}
use ooblivion.Admin.{log_audit, path_id, is_id, problem_with}
use ooblivion.Admin.Requests.{set_saved, toggle_saved, delete_request, finish}

module _ (clock : Clock) (trim_space : Str → Str) (r : HttpRequest) (now : ℕ) (w : World) where
  -- Without faults, the deletion by its id of a stored request to which a row of the log of alerts
  -- refers answers 500 and changes nothing.
  pub delete_request-logged :
      (text : Str) (row : Request)
      → atoi text ≡ (pos row.id, true)
      → Member row w.db.requests
      → logged w.db row.id ≡ true
      → delete_request clock trim_space r text now (healthy w)
        ≡ (err (problem_with 500 (codes "server error")), healthy w)
  unfolding delete_request path_id delete_requests exec faulty answered
  delete_request-logged text row h m l = ground (
    arith,
    h,
    any_of_Member (λ (x : Request). logged w.db x.id) row
        (filter (λ (x : Request). is_id (pos row.id) x.id) w.db.requests)
        (Member-filter (λ (x : Request). is_id (pos row.id) x.id) row w.db.requests m (same row.id))
        l,
  )
    where
      same : (n : ℕ) → n == n ≡ true
      same n = ground arith

  abbrev saving : ℤ → Request → Request
  saving id row = if is_id id row.id then record row { saved = true } else row

  toggle_saved-requests :
      (text : Str) (id : ℤ)
      → atoi text ≡ (id, true)
      → (toggle_saved clock trim_space r text true now (healthy w)).1.db.requests
        ≡ map (saving id) w.db.requests
  unfolding toggle_saved path_id set_saved finish log_audit exec faulty answered insert_audit
  toggle_saved-requests text id h = ground (arith, h)

  -- A stored request that the console has saved without faults survives a flush that follows,
  -- manual or automatic, whatever statements of the flush fail.
  pub flush-toggle_saved :
      (text : Str) (row : Request)
      → atoi text ≡ (pos row.id, true)
      → Member row w.db.requests
      → (default_days : ℤ) (manual : Bool) (ip : Str) (later : ℕ) (faults : List Bool)
      → let saved = (toggle_saved clock trim_space r text true now (healthy w)).1 in
        Member
          (record row { saved = true })
          (flush clock default_days manual ip later
            (record saved { faults = faults })).1.db.requests
  flush-toggle_saved text row h m default_days manual ip later faults =
      let saved = record (toggle_saved clock trim_space r text true now (healthy w)).1 {
        faults = faults;
      } in
      let kept = flush-saved clock default_days ip later saved manual in
      (filter-Member (λ (x : Request). x.saved) (record row { saved = true }) _
        (subst (Member (record row { saved = true })) (sym kept.0)
          (Member-filter (λ (x : Request). x.saved) (record row { saved = true }) _ listed refl))).0
    where
      same : (n : ℕ) → n == n ≡ true
      same n = ground arith

      listed :
          Member
            (record row { saved = true })
            (toggle_saved clock trim_space r text true now (healthy w)).1.db.requests
      listed =
          subst (Member (record row { saved = true }))
            (sym (toggle_saved-requests text (pos row.id) h))
            (subst (λ x. Member x (map (saving (pos row.id)) w.db.requests))
              (ground (arith, same row.id)) (Member-map (saving (pos row.id)) row w.db.requests m))
