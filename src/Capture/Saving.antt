-- ===== src/Capture/Saving.antt =====
-- What applyScope of internal/capture/classify.go leaves in the database.
use ooblivion.Shared.{
  ℕ, true, Option, none, some, List, [], ◌==◌, ◌≡◌, ◌⊎◌, inl, inr, subst, arith, any, map,
  Option-cases, if◌then◌else◌,
}
use ooblivion.Shared.Select.{any_of_Member}
use ooblivion.Exec.{ok, err}
use ooblivion.Matcher.{Subject}
use ooblivion.Models.{Request, Scope}
use ooblivion.Db.{Tables, World, driver, exec, query, rows_err, faulty, answered}
use ooblivion.Capture.Classify.{Classifying, enabled_scopes, first_match, mark_saved, apply_scope}
use ooblivion.Capture.Scopes.{Chosen, first_match-Chosen}

-- A database without faults.
abbrev pub healthy : World → World
healthy w = record w { faults = [] }

-- The row of the request is saved under the scope; all other rows stay.
abbrev pub saved_row : ℕ → Option ℕ → Request → Request
saved_row id none r = r
saved_row id (some scope_id) r =
    if r.id == id then record r { saved = true; scope_id = some scope_id } else r

abbrev pub saved_rows : ℕ → Option ℕ → List Request → List Request
saved_rows id none rows = rows
saved_rows id (some scope_id) rows = map (saved_row id (some scope_id)) rows

module _ (c : Classifying) (req : Request) (subj : Subject) (w : World) where
  abbrev pub chosen : Option ℕ
  chosen = first_match c.lib subj (enabled_scopes w.db)

  abbrev pub saved_db : Tables
  saved_db = record w.db { requests = saved_rows req.id chosen w.db.requests }

  scope_exists : (id : ℕ) → chosen ≡ some id → any (λ (s : Scope). s.id == id) w.db.scopes ≡ true
  scope_exists id e =
      let (s, same, best) =
        subst (Chosen c.lib subj w.db.scopes) e (first_match-Chosen c.lib subj w.db) in
      any_of_Member (λ (s : Scope). s.id == id) s w.db.scopes best.listed (ground (arith, same))

  -- Whatever faults the database has, applyScope either succeeds and saves the request's row under
  -- the chosen scope (changing no row if there is none), or fails with the driver's error and
  -- changes nothing; the foreign key is never violated.
  pub apply_scope_lem :
      ((apply_scope c req subj w).0 ≡ ok tt) × ((apply_scope c req subj w).1.db ≡ saved_db)
      ⊎ ((apply_scope c req subj w).0 ≡ err driver) × ((apply_scope c req subj w).1.db ≡ w.db)
  unfolding apply_scope exec query rows_err mark_saved answered
  apply_scope_lem = elim (Option-cases chosen) [
    | inl missed ↦ ground (arith, missed)
    | inr (id, found) ↦ ground (arith, found, scope_exists id found)
  ]

  pub apply_scope-healthy :
      apply_scope c req subj (healthy w) ≡ (ok tt, healthy (record w { db = saved_db }))
  unfolding apply_scope exec query rows_err mark_saved answered faulty
  apply_scope-healthy = elim (Option-cases chosen) [
    | inl missed ↦ ground (arith, missed)
    | inr (id, found) ↦ ground (arith, found, scope_exists id found)
  ]
