-- ===== src/Capture/Storing.antt =====
-- What Store of internal/capture/capture.go leaves in the database.
use ooblivion.Shared.{
  ℕ, suc, ◌≤◌, List, [], ◌∷◌, ◌++◌, ◌==◌, ◌≡◌, ◌⊎◌, refl, arith, map, All, if◌then◌else◌,
}
use ooblivion.Exec.{ok, err}
use ooblivion.Models.{Request}
use ooblivion.Db.{Tables, World, driver, exec, faulty, answered}
use ooblivion.Capture.{Capturing, insert_request, count_capture, store_row}
use ooblivion.Capture.Saving.{healthy}

-- The identifiers in the table are those that AUTOINCREMENT has given.
abbrev pub IdsBounded : Tables → Type 0
IdsBounded t = All (λ (r : Request). r.id ≤ t.last_request) t.requests

abbrev pub numbered : Request → World → Request
numbered req w = record req { id = suc w.db.last_request }

-- The tables with the row of a captured request, and the counter if that statement went through.
abbrev pub stored_db : ℕ → Request → World → Tables
stored_db total req w = record w.db {
  requests = w.db.requests ++ numbered req w ∷ [];
  last_request = suc w.db.last_request;
  total_captured = total;
}

module _ (c : Capturing) (req : Request) (w : World) where
  -- Whatever faults the database has, Store either returns the request with a new identifier, one
  -- row added and the counter one up or as it was, or returns the driver's error with nothing
  -- changed.
  pub store_row_lem :
      ((store_row c req w).0 ≡ ok (numbered req w))
        × (((store_row c req w).1.db ≡ stored_db (suc w.db.total_captured) req w)
            ⊎ ((store_row c req w).1.db ≡ stored_db w.db.total_captured req w))
      ⊎ ((store_row c req w).0 ≡ err driver) × ((store_row c req w).1.db ≡ w.db)
  unfolding store_row exec insert_request count_capture answered
  store_row_lem = ground arith

  pub store_row-healthy :
      store_row c req (healthy w)
      ≡ (ok (numbered req w), healthy (record w { db = stored_db (suc w.db.total_captured) req w }))
  unfolding store_row exec insert_request count_capture answered faulty
  store_row-healthy = refl

-- An update by identifier touches only the row that was added last.
pub map-append_new :
    (g : Request → Request) (n : ℕ) (rows : List Request) (x : Request)
    → All (λ (r : Request). r.id ≤ n) rows
    → map (λ (r : Request). if r.id == suc n then g r else r) (rows ++ x ∷ [])
      ≡ rows ++ (if x.id == suc n then g x else x) ∷ []
map-append_new g n [] x h = refl
map-append_new g n (r ∷ rows) x (b, h) = ground (arith, map-append_new g n rows x h)
