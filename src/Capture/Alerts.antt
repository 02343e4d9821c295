-- ===== src/Capture/Alerts.antt =====
-- The alerts that applyNotifications of internal/capture/classify.go queues.
use ooblivion.Shared.{
  ℕ, zero, suc, ltb, ltb→lt, ap, sym, ◌∙◌, ◌≤◌, Str, codes, is_empty, Bool, true, false, ◌||◌,
  Option, none, some, List, [], ◌∷◌, ◌++◌, ◌==◌, ◌≡◌, inl, inr, refl, arith, any, map, filter, take,
  length, length-append, leb, ◌↔◌, Member, if◌then◌else◌, Bool-cases,
}
use mathlib.Core.List.{append-nil, append_assoc}
use ooblivion.Shared.Order.{
  IsSorted, order_by-IsSorted, Member-order_by, order_by-Member, length-order_by,
}
use ooblivion.Shared.Select.{Member-filter, filter-Member}
use ooblivion.Exec.{ok}
use ooblivion.Matcher.{Subject, matches}
use ooblivion.Models.{Request, NotificationRule}
use ooblivion.Telegram.{Job}
use ooblivion.Telegram.Sender.{queue_size, enqueue}
use ooblivion.Scheduler.Settings.{setting, read_setting}
use ooblivion.Db.{Tables, World, exec, query, query_row, rows_err, faulty, answered}
use ooblivion.Capture.Saving.{healthy}
use ooblivion.Capture.Classify.{
  Classifying, notification_rule, enabled_rules, mark_notified, alert_job, notify,
  apply_notifications,
}

take-append_full : (n : ℕ) (xs ys : List Job) → length xs ≡ n → take n (xs ++ ys) ≡ xs
take-append_full zero [] ys h = refl
take-append_full zero (x ∷ xs) ys h = absurd (omega arith)
take-append_full (suc n) [] ys h = absurd (omega arith)
take-append_full (suc n) (x ∷ xs) ys h = ground (arith, take-append_full n xs ys)

take_all : (n : ℕ) (xs : List Job) → length xs ≤ n → take n xs ≡ xs
take_all zero [] h = refl
take_all zero (x ∷ xs) h = absurd (omega arith)
take_all (suc n) [] h = refl
take_all (suc n) (x ∷ xs) h = ground (arith, take_all n xs)

-- A channel of any capacity that drops what does not fit.
offer : ℕ → List Job → Job → List Job
offer n queue j = if ltb (length queue) n then queue ++ j ∷ [] else queue

take-offer :
    (n : ℕ) (queue jobs : List Job) (j : Job)
    → length queue ≤ n
    → take n (offer n queue j ++ jobs) ≡ take n (queue ++ j ∷ jobs)
unfolding offer
take-offer n queue jobs j h = elim (Bool-cases (ltb (length queue) n)) [
  | inl room ↦ rw room (ap (take n) (append_assoc queue (j ∷ []) jobs))
  | inr full ↦
      let e : length queue ≡ n = ground arith in
      rw full (take-append_full n queue jobs e ∙ sym (take-append_full n queue (j ∷ jobs) e))
]

length-offer :
    (n : ℕ) (queue : List Job) (j : Job) → length queue ≤ n → length (offer n queue j) ≤ n
unfolding offer
length-offer n queue j h = elim (Bool-cases (ltb (length queue) n)) [
  | inl room ↦ rw room (omega (arith, length-append queue (j ∷ []), ltb→lt _ _ room))
  | inr full ↦ rw full h
]

queue-enqueue :
    (token : Str) (j : Job) (w : World)
    → enqueue token j w
      ≡ record w { queue = if is_empty token then w.queue else offer queue_size w.queue j }
unfolding enqueue offer
queue-enqueue token j w = ground arith

-- The channel after all jobs were offered: a disabled sender takes none, a full channel drops.
abbrev pub offered : Str → List Job → List Job → List Job
offered token queue jobs = if is_empty token then queue else take queue_size (queue ++ jobs)

offered-nil :
    (token : Str) (queue : List Job) → length queue ≤ queue_size → offered token queue [] ≡ queue
offered-nil [] queue h = refl
offered-nil (c ∷ token) queue h = rw append-nil (take_all queue_size queue h)

enqueue-offered :
    (token : Str) (j : Job) (jobs : List Job) (w : World)
    → length w.queue ≤ queue_size
    → offered token (enqueue token j w).queue jobs ≡ offered token w.queue (j ∷ jobs)
enqueue-offered [] j jobs w h = rw queue-enqueue
enqueue-offered (c ∷ token) j jobs w h = rw queue-enqueue (take-offer queue_size w.queue jobs j h)

length-enqueue :
    (token : Str) (j : Job) (w : World)
    → length w.queue ≤ queue_size
    → length (enqueue token j w).queue ≤ queue_size
length-enqueue [] j w h = rw queue-enqueue h
length-enqueue (c ∷ token) j w h = rw queue-enqueue (length-offer queue_size w.queue j h)

enqueue_rest :
    (token : Str) (j : Job) (w : World) (queue : List Job)
    → record (enqueue token j w) { queue = queue } ≡ record w { queue = queue }
enqueue_rest token j w queue = rw queue-enqueue

abbrev pub value_or_empty : Option Str → Str
value_or_empty none = []
value_or_empty (some value) = value

module _ (c : Classifying) (subj : Subject) where
  abbrev pub fires : NotificationRule → Bool
  fires rule = matches c.lib subj (notification_rule rule)

module _ (c : Classifying) (req : Request) (subj : Subject) (public_url : Str) where
  -- The alerts of the rules that match, in the order of the rules.
  abbrev pub alerts : List NotificationRule → List Job
  alerts rules = map (alert_job c req public_url) (filter (fires c subj) rules)

  -- The loop offers the alerts of the matching rules to the channel, in their order, and says
  -- whether there is one; nothing else of the state changes.
  notify_lem :
      (rules : List NotificationRule) (fired : Bool) (w : World)
      → length w.queue ≤ queue_size
      → notify c req subj public_url rules fired w ≡ (
        fired || any (fires c subj) rules,
        record w { queue = offered c.token w.queue (alerts rules) },
      )
  unfolding notify any filter
  notify_lem [] fired w h = ground (arith, offered-nil c.token w.queue h)
  notify_lem (rule ∷ rules) fired w h =
      let j = alert_job c req public_url rule in
      elim (Bool-cases (fires c subj rule)) [
        | inl hit ↦ rw hit (
            notify_lem rules (fired || true) (enqueue c.token j w) (length-enqueue c.token j w h)
            ∙ ground (
              arith,
              enqueue_rest c.token j w (offered c.token w.queue (j ∷ alerts rules)),
              enqueue-offered c.token j (alerts rules) w h,
            ))
        | inr miss ↦ rw miss (notify_lem rules (fired || false) w h ∙ ground arith)
      ]

module _ (c : Classifying) (req : Request) (subj : Subject) (w : World) where
  abbrev pub public_url : Str
  public_url = value_or_empty (setting (codes "public_url") w.db.settings)

  abbrev pub rules_db : Tables
  rules_db =
      if any (fires c subj) (enabled_rules w.db)
      then record w.db {
        requests =
            map (λ (r : Request). if r.id == req.id then record r { notified = true } else r)
              w.db.requests;
      }
      else w.db

  pub apply_notifications-healthy :
      length w.queue ≤ queue_size
      → apply_notifications c req subj (healthy w) ≡ (
        ok tt,
        record w {
          db = rules_db;
          faults = [];
          queue = offered c.token w.queue (alerts c req subj public_url (enabled_rules w.db));
        },
      )
  unfolding apply_notifications exec query query_row rows_err read_setting mark_notified answered
      faulty
  apply_notifications-healthy h =
      ground (arith, notify_lem c req subj public_url (enabled_rules w.db) false (healthy w) h)

-- All enabled rules of the table, in the order of their identifiers.
pub record IsListing (table rules : List NotificationRule) : Type 0 where
  pub sorted : IsSorted (λ a b. leb a.id b.id) rules
  pub listed :
      (rule : NotificationRule) → Member rule rules ↔ (Member rule table × (rule.enabled ≡ true))
  pub count : length rules ≡ length (filter (λ (r : NotificationRule). r.enabled) table)

enabled_rules-IsListing : (t : Tables) → IsListing t.notification_rules (enabled_rules t)
unfolding enabled_rules
enabled_rules-IsListing t = record {
  sorted =
      order_by-IsSorted by_id (λ a b h. ground (arith, h)) (λ a b c h k. ground (arith, h, k)) kept;
  listed = λ rule. (
    λ m. filter-Member is_on rule table (order_by-Member by_id rule kept m),
    λ (m, on). Member-order_by by_id rule kept (Member-filter is_on rule table m on),
  );
  count = length-order_by by_id kept;
}
  where
    table : List NotificationRule
    table = t.notification_rules

    by_id : NotificationRule → NotificationRule → Bool
    by_id a b = leb a.id b.id

    is_on : NotificationRule → Bool
    is_on rule = rule.enabled

    kept : List NotificationRule
    kept = filter is_on table

module _ (c : Classifying) (req : Request) (subj : Subject) (w : World) where
  -- The world in which the alerts of the matching ones of these rules are offered to the channel,
  -- and the request has the flag `notified` if there is one.
  abbrev pub alerted : List NotificationRule → World
  alerted rules = record w {
    db =
        if any (fires c subj) rules
        then record w.db {
          requests =
              map (λ (r : Request). if r.id == req.id then record r { notified = true } else r)
                w.db.requests;
        }
        else w.db;
    faults = [];
    queue = offered c.token w.queue (alerts c req subj (public_url c req subj w) rules);
  }

  -- Without faults applyNotifications offers to the channel one alert for each enabled rule that
  -- matches, in the order of the rules' identifiers, and of the database changes only the flag
  -- `notified` of the request, set exactly when a rule matches.
  pub apply_notifications_lem :
      length w.queue ≤ queue_size
      → (rules : List NotificationRule) × IsListing w.db.notification_rules rules
        × (apply_notifications c req subj (healthy w) ≡ (ok tt, alerted rules))
  apply_notifications_lem h =
      (enabled_rules w.db, enabled_rules-IsListing w.db, apply_notifications-healthy c req subj w h)
