-- ===== src/Telegram/Worker.antt =====
-- The worker of internal/telegram/telegram.go, `run`, against the list of the log's rows that a
-- queue of alerts leaves.
use ooblivion.Shared.{
  ℕ, suc, ◌≡◌, refl, ap, ◌∙◌, arith, Str, codes, is_empty, Bool, false, ◌&&◌, Option, none, some,
  List, [], ◌∷◌, ◌++◌, ◌==◌, length, map, if◌then◌else◌,
}
use ooblivion.Models.{Request, NotificationRule, NotificationLog}
use ooblivion.Db.{Tables, World, exec, faulty, answered}
use ooblivion.Capture.Saving.{healthy}
use ooblivion.Telegram.{Job}
use ooblivion.Telegram.Sender.{
  Bot, Answer, status, unreachable, null_int, known, post, insert_log, log_event, send, run_one,
  run_rounds,
}

-- What keeps an alert from its chat: any answer but the status 200, or none.
abbrev pub unanswered : Bot → Answer → Option Str
unanswered bot (status code body) = if code == 200 then none else some (bot.status_text code body)
unanswered bot (unreachable reason) = some reason

-- Why an alert is not sent, if it is not.
abbrev pub failure : Bot → Job → Option Str
failure bot j =
    if is_empty bot.chat_id
    then some (codes "telegram chat id not set")
    else unanswered bot (bot.post_message bot.chat_id j.text)

-- The rule and the request of the alert are still there.
abbrev pub is_logged : Tables → Job → Bool
is_logged t j =
    known (map (λ (r : NotificationRule). r.id) t.notification_rules) (null_int j.rule_id)
    && known (map (λ (r : Request). r.id) t.requests) (null_int j.request_id)

abbrev pub failed_row : Bot → ℕ → ℕ → Job → Str → NotificationLog
failed_row bot now id j reason = record {
  id = id;
  rule_id = null_int j.rule_id;
  request_id = null_int j.request_id;
  ok = false;
  response = reason;
  sent_at = bot.stamp now;
}

-- The tables after one alert: a row for a failure, if its rule and its request exist.
abbrev pub noted : Bot → ℕ → Job → Option Str → Tables → Tables
noted bot now j none t = t
noted bot now j (some reason) t =
    if is_logged t j
    then record t {
      notification_log = t.notification_log ++ failed_row bot now (suc t.last_log) j reason ∷ [];
      last_log = suc t.last_log;
    }
    else t

-- The tables after a queue of alerts, each handled once and in order.
unfoldable pub noted_all : Bot → (ℕ → ℕ) → List Job → Tables → Tables
noted_all bot times [] t = t
noted_all bot times (j ∷ jobs) t =
    noted_all bot times jobs (noted bot (times (length jobs)) j (failure bot j) t)

send-noted :
    (bot : Bot) (now : ℕ) (j : Job) (w : World)
    → (send bot now j (healthy w)).1
      ≡ healthy (record w { db = noted bot now j (failure bot j) w.db })
unfolding post send log_event insert_log exec faulty answered null_int
send-noted bot now j w = ground arith

send-queue : (bot : Bot) (now : ℕ) (j : Job) (w : World) → (send bot now j w).1.queue ≡ w.queue
unfolding send log_event insert_log exec answered post null_int
send-queue bot now j w = ground arith

run_one-queue :
    (bot : Bot) (now : ℕ) (j : Job) (jobs : List Job) (w : World)
    → w.queue ≡ j ∷ jobs
    → (run_one bot now w).queue ≡ jobs
unfolding run_one
run_one-queue bot now j jobs w h = rw h (send-queue bot now j (record w { queue = jobs }))

module _ (bot : Bot) (times : ℕ → ℕ) where
  rounds-queue :
      (jobs : List Job) (w : World)
      → w.queue ≡ jobs
      → (run_rounds bot times (length jobs) w).queue ≡ []
  unfolding run_rounds
  rounds-queue [] w h = h
  rounds-queue (j ∷ jobs) w h =
      rounds-queue jobs _ (run_one-queue bot (times (length jobs)) j jobs w h)

  -- Whatever fails, the worker empties the channel in as many rounds as it holds alerts.
  pub run_rounds-queue : (w : World) → (run_rounds bot times (length w.queue) w).queue ≡ []
  run_rounds-queue w = rounds-queue w.queue w refl

  rounds-noted :
      (jobs : List Job) (t : Tables) (w : World)
      → run_rounds bot times (length jobs) (healthy (record w { db = t; queue = jobs }))
        ≡ healthy (record w { db = noted_all bot times jobs t; queue = [] })
  unfolding run_rounds run_one noted_all
  rounds-noted [] t w = refl
  rounds-noted (j ∷ jobs) t w =
      ap (run_rounds bot times (length jobs))
        (send-noted bot (times (length jobs)) j (record w { db = t; queue = jobs }))
      ∙ rounds-noted jobs (noted bot (times (length jobs)) j (failure bot j) t) w

  -- Without faults of the database, the worker handles every queued alert once and in order: each
  -- failure adds a row to the log if the alert's rule and request still exist, nothing else
  -- changes, and the channel is empty.
  pub run_rounds-noted_all :
      (w : World)
      → run_rounds bot times (length w.queue) (healthy w)
        ≡ healthy (record w { db = noted_all bot times w.queue w.db; queue = [] })
  run_rounds-noted_all w = rounds-noted w.queue w.db w
