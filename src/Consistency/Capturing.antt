-- ===== src/Consistency/Capturing.antt =====
-- The capture of a request, the alerts, and the start of the program keep the tables consistent:
-- internal/capture, internal/telegram and cmd/ooblivion/main.go.
use ooblivion.Shared.{
  ℕ, Str, ◌≡◌, refl, ◌∙◌, subst, sym, arith, Bool, true, false, if◌then◌else◌, Option, none, some,
  List, [], ◌∷◌,
}
use ooblivion.Exec.{ok, err, Result, raise}
use ooblivion.Matcher.{Subject}
use ooblivion.Models.{Request, NotificationRule}
use ooblivion.Telegram.{Job}
use ooblivion.Telegram.Sender.{Bot, log_event, log_failure, send, run_one, enqueue}
use ooblivion.Http.{HttpRequest}
use ooblivion.Db.{Tables, World, Error, driver, constraint, no_rows, panic}
use ooblivion.Db.Keeping.{Keeps, Allows, Keeps-raise, Keeps-pure}
use ooblivion.Auth.Passwords.{PasswordLib}
use ooblivion.Scheduler.{Clock}
use ooblivion.Capture.{Capturing, read_body, captured, store_row, store}
use ooblivion.Capture.Classify.{
  Classifying, mark_saved, mark_notified, save_under, notify, notify_all, apply_scope,
  apply_notifications, classify,
}
use ooblivion.Server.{RootHandler, capture, classified}
use ooblivion.Server.Setup.{hash_or, set_password, ensure_auth}
use ooblivion.Admin.Rules.{RulesLib}
use ooblivion.Consistency.{IsConsistent}
use ooblivion.Admin.Keeping.{read_rules}
use ooblivion.Consistency.Requests.{Allows-insert_request, Allows-mark_saved, Allows-mark_notified}
use ooblivion.Consistency.Effects.{handler_rules}

enqueue-db : (token : Str) (j : Job) (w : World) → (enqueue token j w).db ≡ w.db
unfolding enqueue
enqueue-db token j w = ground arith

enqueued-db :
    (token : Str) (j : Job) (hit : Bool) (w : World)
    → (if hit then enqueue token j w else w).db ≡ w.db
enqueued-db token j true w = enqueue-db token j w
enqueued-db token j false w = refl

-- The loop over the rules changes only the queue.
notify-db :
    (k : Classifying) (req : Request) (subj : Subject) (url : Str) (rules : List NotificationRule)
    (fired : Bool) (w : World)
    → (notify k req subj url rules fired w).1.db ≡ w.db
unfolding notify
notify-db k req subj url [] fired w = refl
notify-db k req subj url (rule ∷ rules) fired w =
    notify-db k req subj url rules _ _ ∙ enqueued-db k.token _ _ w

-- Classify keeps what its two updates keep.
module _ {P : Tables → Type 0} (marked : (key id : ℕ) → Allows P (mark_saved key id))
    (notified : (id : ℕ) → Allows P (mark_notified id)) where
  Keeps-save_under : (req : Request) (o : Option ℕ) → Keeps P (save_under req o)
  Keeps-save_under req none = Keeps-pure tt
  Keeps-save_under req (some key) = search (read_rules, marked) depth 8

  Keeps-apply_scope :
      (k : Classifying) (req : Request) (subj : Subject) → Keeps P (apply_scope k req subj)
  unfolding apply_scope
  Keeps-apply_scope k req subj = search (read_rules, Keeps-save_under) depth 12

  Keeps-notify_all :
      (k : Classifying) (req : Request) (subj : Subject) (url : Str) (rules : List NotificationRule)
      → Keeps P (notify_all k req subj url rules)
  Keeps-notify_all k req subj url rules = record {
    at = λ w h. subst P (sym (notify-db k req subj url rules false w)) h;
  }

  Keeps-apply_notifications :
      (k : Classifying) (req : Request) (subj : Subject) → Keeps P (apply_notifications k req subj)
  unfolding apply_notifications
  Keeps-apply_notifications k req subj = search (read_rules, notified, Keeps-notify_all) depth 16

  pub Keeps-classify_of :
      (k : Classifying) (req : Request) (subj : Subject) → Keeps P (classify k req subj)
  unfolding classify
  Keeps-classify_of k req subj =
      search (read_rules, Keeps-apply_scope, Keeps-apply_notifications) depth 16

module _ {c : RulesLib} where
  Keeps-store_row :
      (capturing : Capturing) (req : Request)
      → req.scope_id ≡ none
      → Keeps (IsConsistent c) (store_row capturing req)
  unfolding store_row
  Keeps-store_row capturing req fresh =
      search (handler_rules, Allows-insert_request req fresh) depth 12

  Keeps-store :
      (capturing : Capturing) (now : ℕ) (r : HttpRequest)
      → Keeps (IsConsistent c) (store capturing now r)
  unfolding store captured
  Keeps-store capturing now r = read (read_body capturing.max_body r.body)
    where
      read :
          (o : Option (Str × Bool))
          → Keeps {E = Error} {A = Request} (IsConsistent c) (elim o [
            | none ↦ raise {S = World} panic
            | some body ↦ store_row capturing (captured capturing now r body)
          ])
      read none = Keeps-raise panic
      read (some body) = Keeps-store_row capturing (captured capturing now r body) refl

  pub Keeps-classify :
      (k : Classifying) (req : Request) (subj : Subject)
      → Keeps (IsConsistent c) (classify k req subj)
  Keeps-classify k req subj = Keeps-classify_of Allows-mark_saved Allows-mark_notified k req subj

  -- The part of ServeHTTP that captures.
  pub capture-IsConsistent :
      (h : RootHandler) (now : ℕ) (r : HttpRequest) (w : World)
      → IsConsistent c w.db
      → IsConsistent c (capture h now r w).1.db
  unfolding capture
  capture-IsConsistent h now r w start =
      then_classified (store h.capturing now r w) ((Keeps-store h.capturing now r).at w start)
    where
      then_classified :
          (stored : Result Error Request × World)
          → IsConsistent c stored.1.db
          → IsConsistent c (classified h stored).1.db
      then_classified (ok req, v) k = (Keeps-classify h.classifying req _).at v k
      then_classified (err driver, v) k = k
      then_classified (err constraint, v) k = k
      then_classified (err no_rows, v) k = k
      then_classified (err panic, v) k = k

  Keeps-log_failure :
      (bot : Bot) (now : ℕ) (j : Job) (o : Option Str)
      → Keeps (IsConsistent c) (log_failure bot now j o)
  unfolding log_event
  Keeps-log_failure bot now j none = Keeps-pure tt
  Keeps-log_failure bot now j (some reason) = search handler_rules depth 12

  Keeps-send : (bot : Bot) (now : ℕ) (j : Job) → Keeps (IsConsistent c) (send bot now j)
  unfolding send log_event
  Keeps-send bot now j = search (handler_rules, Keeps-log_failure) depth 12

  -- One round of the worker.
  pub run_one-IsConsistent :
      (bot : Bot) (now : ℕ) (w : World)
      → IsConsistent c w.db
      → IsConsistent c (run_one bot now w).db
  unfolding run_one
  run_one-IsConsistent bot now w h = sent w.queue
    where
      sent :
          (jobs : List Job)
          → IsConsistent c
              (elim jobs as (λ js. World) [
                | [] ↦ w
                | j ∷ rest ↦ (send bot now j (record w { queue = rest })).1
              ]).db
      sent [] = h
      sent (j ∷ rest) = (Keeps-send bot now j).at (record w { queue = rest }) h

  Keeps-hash_or : (o : Option Str) → Keeps (IsConsistent c) (hash_or o)
  Keeps-hash_or none = Keeps-raise _
  Keeps-hash_or (some hash) = Keeps-pure hash

  pub Keeps-ensure_auth :
      (lib : PasswordLib) (clock : Clock) (password : Str) (random : Option Str) (now : ℕ)
      → Keeps (IsConsistent c) (ensure_auth lib clock password random now)
  unfolding ensure_auth set_password
  Keeps-ensure_auth lib clock password random now = search (handler_rules, Keeps-hash_or) depth 16
