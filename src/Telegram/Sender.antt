-- ===== src/Telegram/Sender.antt =====
-- The queue of internal/telegram/telegram.go and the worker that empties it. The Bot API is a
-- parameter: what `client.Post` gives for a chat and a text.
use ooblivion.Shared.{
  ℕ, zero, suc, Str, codes, is_empty, Bool, true, false, ◌&&◌, Option, none, some, List, [], ◌∷◌,
  ◌++◌, length, any, map, ltb, ◌==◌, if◌then◌else◌,
}
use ooblivion.Exec.{Exec, pure, ignore}
use ooblivion.Models.{Request, NotificationRule, NotificationLog}
use ooblivion.Telegram.{Job, escape_md}
use ooblivion.Db.{Tables, World, Error, exec}

-- the capacity of `jobs`
abbrev pub queue_size : ℕ
queue_size = 256

-- Enqueue: nothing without a token, and a full queue drops the alert
unfoldable pub enqueue : Str → Job → World → World
enqueue token j w =
    if is_empty token
    then w
    else if ltb (length w.queue) queue_size
    then record w { queue = w.queue ++ j ∷ [] }
    else w

-- the answer of the Bot API: a status with the text of its body, or no answer
pub data Answer : Type 0 where
  status : ℕ → Str → Answer
  unreachable : Str → Answer

-- nullInt
unfoldable pub null_int : ℕ → Option ℕ
null_int v = if v == 0 then none else some v

abbrev pub known : List ℕ → Option ℕ → Bool
known ids none = true
known ids (some key) = any (λ id. id == key) ids

-- INSERT INTO notification_log, with the foreign keys of 001_init.sql
unfoldable pub insert_log : Option ℕ → Option ℕ → Bool → Str → Str → Tables → Option (ℕ × Tables)
insert_log rule_id request_id good response sent_at t =
    let id = suc t.last_log in
    let row : NotificationLog = record {
      id = id;
      rule_id = rule_id;
      request_id = request_id;
      ok = good;
      response = response;
      sent_at = sent_at;
    } in
    if known (map (λ (r : NotificationRule). r.id) t.notification_rules) rule_id
      && known (map (λ (r : Request). r.id) t.requests) request_id
    then some (id, record t { notification_log = t.notification_log ++ row ∷ []; last_log = id })
    else none

pub record Bot : Type 0 where
  pub token : Str
  pub chat_id : Str
  pub post_message : Str → Str → Answer
  pub stamp : ℕ → Str
  pub status_text : ℕ → Str → Str

-- post: `none` is success, otherwise the text of the error
unfoldable pub post : Bot → Str → Str → Option Str
post bot chat_id text = elim (bot.post_message chat_id text) [
  | status code body ↦ if code == 200 then none else some (bot.status_text code body)
  | unreachable reason ↦ some reason
]

-- SendTest: `none` is success
unfoldable pub send_test : Bot → Str → Option Str
unfolding post escape_md
send_test bot chat_id =
    if is_empty bot.token
    then some (codes "telegram disabled: TELEGRAM_BOT_TOKEN not set")
    else if is_empty chat_id
    then some (codes "telegram chat id not set")
    else post bot chat_id
        (escape_md (codes "ooblivion test message - telegram notifications are working"))

-- logEvent: a failed insert is only logged
unfoldable pub log_event : Bot → ℕ → Job → Bool → Str → Exec World Error (Unit {0})
unfolding insert_log null_int
log_event bot now j good response =
    ignore
      (exec (insert_log (null_int j.rule_id) (null_int j.request_id) good response (bot.stamp now)))

abbrev pub log_failure : Bot → ℕ → Job → Option Str → Exec World Error (Unit {0})
log_failure bot now j none = pure tt
log_failure bot now j (some reason) = log_event bot now j false reason

unfoldable pub send : Bot → ℕ → Job → Exec World Error (Unit {0})
unfolding log_event post
send bot now j =
    if is_empty bot.chat_id
    then log_event bot now j false (codes "telegram chat id not set")
    else log_failure bot now j (post bot bot.chat_id j.text)

-- one round of the worker's loop, `for j := range s.jobs`
unfoldable pub run_one : Bot → ℕ → World → World
unfolding send
run_one bot now w = elim w.queue [
  | [] ↦ w
  | j ∷ jobs ↦ (send bot now j (record w { queue = jobs })).1
]

-- `run`, for as many rounds as the channel holds jobs: it ends when the channel is empty, and waits
unfoldable pub run_rounds : Bot → (ℕ → ℕ) → ℕ → World → World
unfolding run_one
run_rounds bot times zero w = w
run_rounds bot times (suc n) w = run_rounds bot times n (run_one bot (times n) w)
