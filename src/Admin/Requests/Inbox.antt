-- ===== src/Admin/Requests/Inbox.antt =====
-- The commands on captured requests of internal/admin/handlers_requests.go, against a list of
-- identifiers with a flag.
use ooblivion.Shared.{
  ℕ, ℤ, ◌≡◌, ◌≢◌, refl, sym, ap, ◌∙◌, arith, Str, atoi, Bool, true, false, not, Option, none, some,
  List, [], ◌∷◌, any, filter, map, if◌then◌else◌,
}
use ooblivion.Exec.{Result, ok, err, or_else, ◌>>=◌, ◌>>◌}
use ooblivion.Models.{Request}
use ooblivion.Db.{Tables, World, Error, driver, done, exec, faulty, answered, delete_requests}
use ooblivion.Db.Audit.{insert_audit}
use ooblivion.Http.{HttpRequest}
use ooblivion.Scheduler.{Clock}
use ooblivion.Admin.{Content, Reply, Handler, server_error, is_id, parsed_id, path_id, log_audit}
use ooblivion.Admin.Requests
use ooblivion.Admin.Requests.{set_saved, toggle_saved, delete_request, bulk_delete}

-- What the commands are about: identifiers, and whether the request is saved.
abbrev pub Inbox : Type 0
Inbox = List (ℕ × Bool)

abbrev entry : Request → ℕ × Bool
entry r = (r.id, r.saved)

abbrev pub inbox : Tables → Inbox
inbox t = map entry t.requests

-- the commands, with the path's `id` or the decoded body
pub data Command : Type 0 where
  save : Str → Command
  unsave : Str → Command
  delete : Str → Command
  delete_all : Option (List ℤ) → Command

abbrev ids_of : Option (List ℤ) → List ℤ
ids_of none = []
ids_of (some ids) = ids

abbrev marked : ℤ → Bool → ℕ × Bool → ℕ × Bool
marked id flag (n, saved) = if is_id id n then (n, flag) else (n, saved)

-- What a command means.
abbrev pub meant : Command → Inbox → Inbox
meant (save text) = map (marked (atoi text).0 true)
meant (unsave text) = map (marked (atoi text).0 false)
meant (delete text) = filter (λ (e : ℕ × Bool). not (is_id (atoi text).0 e.0))
meant (delete_all body) = filter (λ (e : ℕ × Bool). not (any (λ id. is_id id e.0) (ids_of body)))

-- The answer 200 says that the command is done; any other, that no table has changed.
abbrev pub IsDone : Command → Tables → Tables → Result Reply Reply → Type 0
IsDone c before after (ok reply) = (reply.status ≡ 200) × (inbox after ≡ meant c (inbox before))
IsDone c before after (err reply) = (reply.status ≢ 200) × (after ≡ before)

map-entry :
    (f : Request → Request) (g : ℕ × Bool → ℕ × Bool) (rows : List Request)
    → ((r : Request) → entry (f r) ≡ g (entry r))
    → map entry (map f rows) ≡ map g (map entry rows)
map-entry f g [] same = refl
map-entry f g (r ∷ rows) same = ground (arith, same r, map-entry f g rows same)

filter-entry :
    (p : Request → Bool) (q : ℕ × Bool → Bool) (rows : List Request)
    → ((r : Request) → p r ≡ q (entry r))
    → map entry (filter p rows) ≡ filter q (map entry rows)
unfolding filter
filter-entry p q [] same = refl
filter-entry p q (r ∷ rows) same = ground (arith, same r, filter-entry p q rows same)

written :
    {A : Type 0} {a b : A} {t t' : Tables}
    → ◌≡◌ {A = Option (A × Tables)} (some (a, t)) (some (b, t'))
    → t ≡ t'
written e = ground (arith, e)

unrefused :
    {A : Type 0} (refused : Bool) (o : Option (A × Tables)) (b : A) (t' : Tables)
    → (if refused then none else o) ≡ some (b, t')
    → o ≡ some (b, t')
unrefused refused o b t' e = ground (arith, e)

module _ (clock : Clock) (trim : Str → Str) (r : HttpRequest) (now : ℕ) where
  -- the handlers
  abbrev pub run : Command → Handler
  run (save text) = toggle_saved clock trim r text true now
  run (unsave text) = toggle_saved clock trim r text false now
  run (delete text) = delete_request clock trim r text now
  run (delete_all body) = bulk_delete clock trim r body now

  set_saved-inbox :
      (flag : Bool) (id : ℤ) (t t' : Tables) (a : Unit {0})
      → set_saved flag id t ≡ some (a, t')
      → inbox t' ≡ map (marked id flag) (inbox t)
  unfolding set_saved
  set_saved-inbox flag id t t' a e =
      ap inbox (sym (written e)) ∙ map-entry _ (marked id flag) t.requests (λ r. ground arith)

  delete-inbox :
      (p : Request → Bool) (q : ℕ × Bool → Bool) (t t' : Tables) (a : ℕ)
      → delete_requests p t ≡ some (a, t')
      → ((r : Request) → p r ≡ q (entry r))
      → inbox t' ≡ filter (λ e. not (q e)) (inbox t)
  unfolding delete_requests
  delete-inbox p q t t' a e same =
      ap inbox (sym (written (unrefused _ _ a t' e)))
      ∙ filter-entry (λ r. not (p r)) (λ e. not (q e)) t.requests (λ r. ap not (same r))

  finished :
      (c : Command) (before : Tables) (action detail : Str) (content : Content) (w : World)
      → inbox w.db ≡ meant c (inbox before)
      → let out = Requests.finish clock trim action detail r now content w in
        IsDone c before out.1.db out.0
  unfolding Requests.finish log_audit insert_audit exec answered
  finished c before action detail content w h = ground (arith, h)

  module _ {A : Type 0} (c : Command) (statement : Tables → Option (A × Tables))
      (next : A → Handler) (before : Tables) where
    abbrev Fine : Result Reply Reply × World → Type 0
    Fine out = IsDone c before out.1.db out.0

    abbrev HasNext : Type 0
    HasNext = (a : A) (w : World) → statement before ≡ some (a, w.db) → Fine (next a w)

    abbrev go_on : Result Error A × World → Result Reply Reply × World
    go_on out = (or_else server_error (λ w. out) >>= next) out.1

    executed :
        (o : Option (A × Tables)) (w : World)
        → statement before ≡ o
        → w.db ≡ before
        → HasNext
        → Fine (go_on (done w o))
    executed none w e same k = (omega arith, same)
    executed (some (a, t)) w e same k = k a (record w { db = t }) e

    stated :
        (b : Bool) (w : World)
        → w.db ≡ before
        → HasNext
        → Fine
            (go_on (if b then (err driver, answered w) else done (answered w) (statement before)))
    unfolding answered
    stated true w same k = (omega arith, same)
    stated false w same k = executed (statement before) (answered w) refl same k

  parsed :
      (c : Command) (p : ℤ × Bool) (next : ℤ → Handler) (w : World)
      → IsDone c w.db (next p.0 w).1.db (next p.0 w).0
      → let out = (parsed_id p >>= next) w in IsDone c w.db out.1.db out.0
  parsed c (id, true) next w k = k
  parsed c (id, false) next w k = (omega arith, refl)

  marking :
      (c : Command) (flag : Bool) (id : ℤ) (w : World) (action detail : Str) (content : Content)
      → meant c ≡ map (marked id flag)
      → let out =
          (or_else server_error (exec (set_saved flag id))
              >> Requests.finish clock trim action detail r now content)
            w in
        IsDone c w.db out.1.db out.0
  unfolding exec
  marking c flag id w action detail content e =
      stated c (set_saved flag id) _ w.db (faulty w.faults) w refl (λ a v k.
        finished c w.db action detail content v
          (set_saved-inbox flag id w.db v.db a k ∙ ap (λ f. f (inbox w.db)) (sym e)))

  deleting :
      (c : Command) (p : Request → Bool) (q : ℕ × Bool → Bool) (w : World) (action : Str)
      (detail : ℕ → Str) (content : ℕ → Content)
      → ((r : Request) → p r ≡ q (entry r))
      → meant c ≡ filter (λ e. not (q e))
      → let out =
          (or_else server_error (exec (delete_requests p)) >>= λ n.
          Requests.finish clock trim action (detail n) r now (content n))
            w in
        IsDone c w.db out.1.db out.0
  unfolding exec
  deleting c p q w action detail content same e =
      stated c (delete_requests p) _ w.db (faulty w.faults) w refl (λ a v k.
        finished c w.db action (detail a) (content a) v
          (delete-inbox p q w.db v.db a k same ∙ ap (λ f. f (inbox w.db)) (sym e)))

  -- Whatever fails, a command on requests either is answered with 200 and does what it means on
  -- the list of identifiers and flags, or is answered with an error and changes no table.
  pub run-IsDone : (c : Command) (w : World) → IsDone c w.db (run c w).1.db (run c w).0
  unfolding toggle_saved delete_request bulk_delete path_id
  run-IsDone (save text) w =
      parsed (save text) (atoi text) _ w (marking (save text) true (atoi text).0 w _ _ _ refl)
  run-IsDone (unsave text) w =
      parsed (unsave text) (atoi text) _ w (marking (unsave text) false (atoi text).0 w _ _ _ refl)
  run-IsDone (delete text) w = parsed (delete text) (atoi text) _ w (
      deleting (delete text) _ (λ e. is_id (atoi text).0 e.0) w _ (λ n. _) (λ n. _) (λ r. refl)
        refl)
  run-IsDone (delete_all none) w = (omega arith, refl)
  run-IsDone (delete_all (some [])) w = (omega arith, refl)
  run-IsDone (delete_all (some (id ∷ ids))) w =
      deleting (delete_all (some (id ∷ ids))) _ (λ e. any (λ i. is_id i e.0) (id ∷ ids)) w _ _ _
        (λ r. refl) refl
