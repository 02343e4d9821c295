-- ===== src/Interleaving/Captures.antt =====
-- The capture of a request in cmd/ooblivion/main.go, with what other goroutines do between Store of
-- internal/capture/capture.go and Classify of internal/capture/classify.go.
use ooblivion.Shared.{
  ℕ, suc, ℤ, Str, ◌≡◌, ◌≤◌, refl, sym, subst, ◌∙◌, arith, Bool, true, false, not, some, List, [],
  ◌∷◌, ◌++◌, ◌==◌, any, filter, map, All, if◌then◌else◌,
}
use ooblivion.Exec.{Result, ok}
use ooblivion.Models.{Request}
use ooblivion.Http.{HttpRequest}
use ooblivion.Db.{Tables, World, Error}
use ooblivion.Db.Keeping.{Allows}
use ooblivion.Scheduler.{Clock, flush, unsaved}
use ooblivion.Scheduler.Retention.{flush_manual_lem}
use ooblivion.Capture.{read_body, captured, store}
use ooblivion.Capture.Classify.{mark_saved, mark_notified}
use ooblivion.Capture.Saving.{healthy}
use ooblivion.Capture.Storing.{IdsBounded, stored_db, numbered, store_row-healthy}
use ooblivion.Consistency.Statements.{total, guarded}
use ooblivion.Consistency.Capturing.{Keeps-classify_of}
use ooblivion.Server.{RootHandler, Served, answered, capture, catch_all, classified}

-- no request has the identifier
abbrev pub IsAbsent : ℕ → Tables → Type 0
IsAbsent n t = any (λ (r : Request). r.id == n) t.requests ≡ false

any-map :
    (n : ℕ) (f : Request → Request) (rows : List Request)
    → ((r : Request) → (f r).id ≡ r.id)
    → any (λ (r : Request). r.id == n) (map f rows) ≡ any (λ (r : Request). r.id == n) rows
unfolding any
any-map n f [] same = refl
any-map n f (r ∷ rows) same = rw (same r, any-map n f rows same) refl

updated_id :
    (g : Request → Request) (b : Bool) (r : Request)
    → (g r).id ≡ r.id
    → (if b then g r else r).id ≡ r.id
updated_id g true r e = e
updated_id g false r e = refl

marked-IsAbsent : (n key id : ℕ) → Allows (IsAbsent n) (mark_saved key id)
unfolding mark_saved
marked-IsAbsent n key id = guarded _ _ _ (λ t good h.
    any-map n _ t.requests
      (λ r. updated_id (λ r. record r { saved = true; scope_id = some key }) (r.id == id) r refl)
    ∙ h)

notified-IsAbsent : (n id : ℕ) → Allows (IsAbsent n) (mark_notified id)
unfolding mark_notified
notified-IsAbsent n id = total _ _ (λ t h.
    any-map n _ t.requests (λ r. updated_id (λ r. record r { notified = true }) (r.id == id) r refl)
    ∙ h)

-- A new row that is not saved goes with the flush, and the older ones have smaller identifiers.
flushed_out :
    (last : ℕ) (rows : List Request) (x : Request)
    → All (λ (r : Request). r.id ≤ last) rows
    → x.saved ≡ false
    → any (λ (r : Request). r.id == suc last) (filter (λ r. not (unsaved r)) (rows ++ x ∷ []))
      ≡ false
unfolding any filter
flushed_out last [] x h e = ground (arith, e)
flushed_out last (r ∷ rows) x h e = ground (arith, h.0, flushed_out last rows x h.1 e)

module _ (h : RootHandler) where
  abbrev after_store : (World → World) → Result Error Request × World → Result Error Request × World
  after_store others (r, w) = (r, others w)

  -- the part of ServeHTTP that captures
  unfoldable pub capture_around : (World → World) → ℕ → HttpRequest → World → Served × World
  unfolding store
  capture_around others now r w = classified h (after_store others (store h.capturing now r w))

  -- With nothing in between, this is the handler's part.
  pub capture_around-idle :
      (now : ℕ) (r : HttpRequest) (w : World) → capture_around (λ v. v) now r w ≡ capture h now r w
  unfolding capture_around capture
  capture_around-idle now r w = refl

  -- the world behind Store
  abbrev stored : ℕ → HttpRequest → Str × Bool → World → World
  stored now r read w = record w {
    db = stored_db (suc w.db.total_captured) (captured h.capturing now r read) w;
  }

  store_lem :
      (now : ℕ) (r : HttpRequest) (w : World) (read : Str × Bool)
      → read_body h.capturing.max_body r.body ≡ some read
      → store h.capturing now r (healthy w)
        ≡ (ok (numbered (captured h.capturing now r read) w), healthy (stored now r read w))
  unfolding store
  store_lem now r w read body =
      rw (body, store) (store_row-healthy h.capturing (captured h.capturing now r read) w)

  classified-IsAbsent :
      (n : ℕ) (req : Request) (w : World)
      → IsAbsent n w.db
      → ((classified h (ok req, w)).0 ≡ answered catch_all)
        × IsAbsent n (classified h (ok req, w)).1.db
  classified-IsAbsent n req w absent = (
    refl,
    (Keeps-classify_of (marked-IsAbsent n) (notified-IsAbsent n) h.classifying req _).at w absent,
  )

  -- A manual flush that comes, without faults, between Store and Classify deletes the request that
  -- is being captured, whichever scope matches it: the visitor is answered as always, and no row
  -- has the new identifier.
  pub capture_around-flush :
      (clock : Clock) (default_days : ℤ) (ip : Str) (later now : ℕ) (r : HttpRequest) (w : World)
      (read : Str × Bool)
      → IdsBounded w.db
      → w.flushing ≡ false
      → read_body h.capturing.max_body r.body ≡ some read
      → let out =
          capture_around (λ v. (flush clock default_days true ip later v).1) now r (healthy w) in
        (out.0 ≡ answered catch_all) × IsAbsent (suc w.db.last_request) out.1.db
  unfolding capture_around captured
  capture_around-flush clock default_days ip later now r w read bounded free body =
      subst
        (λ p.
          let out = classified h (after_store others p) in
          (out.0 ≡ answered catch_all) × IsAbsent (suc w.db.last_request) out.1.db)
        (sym (store_lem now r w read body))
        (classified-IsAbsent (suc w.db.last_request) (numbered req w) (others next) (
          subst (λ p. IsAbsent (suc w.db.last_request) p.1.db)
            (sym (flush_manual_lem clock default_days ip later (stored now r read w) free))
            (flushed_out w.db.last_request w.db.requests (numbered req w) bounded refl)))
    where
      others : World → World
      others v = (flush clock default_days true ip later v).1

      req : Request
      req = captured h.capturing now r read

      next : World
      next = healthy (stored now r read w)
