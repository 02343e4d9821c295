-- ===== src/Capture/Classify.antt =====
-- internal/capture/classify.go: scopes that save a request, and rules that send alerts. Parsing a
-- stored time and printing it in local time is a parameter.
use ooblivion.Shared.{
  ℕ, Str, codes, is_empty, replace_all, itoa_ℕ, ltb_ℤ, leb, Bool, true, false, not, ◌&&◌, ◌||◌,
  Option, none, some, List, [], ◌∷◌, ◌++◌, ◌==◌, filter, any, map, order_by, if◌then◌else◌,
}
use ooblivion.Exec.{ok, Exec, ◌>>=◌, ◌>>◌, pure}
use ooblivion.Matcher.{Rule, Subject, TextLib, matches}
use ooblivion.Models.{Request, Scope, NotificationRule}
use ooblivion.Telegram.{Job, escape_md}
use ooblivion.Telegram.Sender.{enqueue}
use ooblivion.Scheduler.Settings.{read_setting}
use ooblivion.Db.{Tables, World, Error, exec, query, rows_err}

pub record Classifying : Type 0 where
  pub lib : TextLib
  pub parse_local : Str → Option Str
  pub token : Str

abbrev name_or_empty : Option Str → Str
name_or_empty none = []
name_or_empty (some name) = name

-- ruleFrom
unfoldable pub rule_from : Str → Str → Str → Option Str → Rule
rule_from match_on match_type pattern header_name = record {
  match_on = match_on;
  match_type = match_type;
  pattern = pattern;
  header_name = name_or_empty header_name;
}

abbrev pub scope_rule : Scope → Rule
scope_rule s = rule_from s.match_on s.match_type s.pattern s.header_name

abbrev pub notification_rule : NotificationRule → Rule
notification_rule s = rule_from s.match_on s.match_type s.pattern s.header_name

-- ORDER BY priority DESC, id ASC
unfoldable pub scope_before : Scope → Scope → Bool
scope_before a b =
    ltb_ℤ b.priority a.priority || (not (ltb_ℤ a.priority b.priority) && leb a.id b.id)

unfoldable pub enabled_scopes : Tables → List Scope
unfolding scope_before
enabled_scopes t = order_by scope_before (filter (λ s. s.enabled) t.scopes)

-- WHERE enabled = 1 ORDER BY id ASC
unfoldable pub enabled_rules : Tables → List NotificationRule
enabled_rules t = order_by (λ a b. leb a.id b.id) (filter (λ r. r.enabled) t.notification_rules)

module _ (lib : TextLib) (subj : Subject) where
  -- the loop that stops at the first scope that matches
  unfoldable pub first_match : List Scope → Option ℕ
  unfolding matches rule_from
  first_match [] = none
  first_match (s ∷ scopes) =
      if matches lib subj (scope_rule s) then some s.id else first_match scopes

-- UPDATE requests SET saved = 1, scope_id = ? WHERE id = ?; the key must be one of a scope, unless
-- no row is updated
unfoldable pub mark_saved : ℕ → ℕ → Tables → Option (Unit {0} × Tables)
mark_saved scope_id id t =
    if any (λ (s : Scope). s.id == scope_id) t.scopes
      || not (any (λ (r : Request). r.id == id) t.requests)
    then some (
      tt,
      record t {
        requests =
            map
              (λ (r : Request).
                if r.id == id then record r { saved = true; scope_id = some scope_id } else r)
              t.requests;
      },
    )
    else none

-- UPDATE requests SET notified = 1 WHERE id = ?
unfoldable pub mark_notified : ℕ → Tables → Option (Unit {0} × Tables)
mark_notified id t = some (
  tt,
  record t {
    requests =
        map (λ (r : Request). if r.id == id then record r { notified = true } else r) t.requests;
  },
)

abbrev pub save_under : Request → Option ℕ → Exec World Error (Unit {0})
save_under req none = pure tt
save_under req (some scope_id) = exec (mark_saved scope_id req.id)

abbrev detail_path : ℕ → Str
detail_path id = codes "/admin/requests/" ++ itoa_ℕ id

abbrev escape_backquote : Str → Str
escape_backquote s = replace_all s b'`' (codes "\\`")

-- the part of the alert between backquotes
unfoldable pub endpoint : Request → Str
endpoint req =
    let line = req.method ++ (codes " " ++ (req.host ++ req.path)) in
    escape_backquote (if is_empty req.query then line else line ++ (codes "?" ++ req.query))

module _ (c : Classifying) where
  -- formatTimeID; `none` is a failed time.Parse
  unfoldable pub format_time_id : Str → Str
  format_time_id ts = elim (c.parse_local ts) [ none ↦ ts | some text ↦ text ]

  unfoldable pub view_link : ℕ → Str → Str
  view_link id public_url =
      if is_empty public_url
      then escape_md (detail_path id)
      else codes "["
        ++ (escape_md public_url
            ++ (detail_path id ++ (codes "](" ++ (public_url ++ (detail_path id ++ codes ")")))))

  unfoldable pub ip_line : Request → Str
  ip_line req =
      if is_empty req.source_ip
      then []
      else codes "IP: `" ++ (escape_backquote req.source_ip ++ codes "`\n")

  unfoldable pub build_alert : Request → Str → Str → Str
  unfolding endpoint view_link ip_line format_time_id
  build_alert req rule_name public_url =
      codes "*OOBlivion Alert*\n\nAlert Name: "
      ++ (escape_md rule_name
          ++ (codes "\nTime: "
              ++ (escape_md (format_time_id req.created_at)
                  ++ (codes "\n\n"
                      ++ (ip_line req
                          ++ (codes "`"
                              ++ (endpoint req
                                  ++ (codes "`\n\nView Url: " ++ view_link req.id public_url))))))))

  unfoldable pub alert_job : Request → Str → NotificationRule → Job
  unfolding build_alert
  alert_job req public_url rule = record {
    rule_id = rule.id;
    request_id = req.id;
    rule_name = rule.name;
    text = build_alert req rule.name public_url;
  }

  -- the loop over the rules: whether one has fired, and the state with its alerts queued
  unfoldable pub notify :
      Request → Subject → Str → List NotificationRule → Bool → World → Bool × World
  unfolding matches rule_from alert_job enqueue
  notify req subj public_url [] fired w = (fired, w)
  notify req subj public_url (rule ∷ rules) fired w =
      let hit = matches c.lib subj (notification_rule rule) in
      notify req subj public_url rules (fired || hit)
        (if hit then enqueue c.token (alert_job req public_url rule) w else w)

  -- applyScope
  unfoldable pub apply_scope : Request → Subject → Exec World Error (Unit {0})
  unfolding first_match enabled_scopes
  apply_scope req subj = do
    scopes ← query enabled_scopes
    rows_err
    save_under req (first_match c.lib subj scopes)

  abbrev pub notify_all : Request → Subject → Str → List NotificationRule → Exec World Error Bool
  notify_all req subj public_url rules w =
      let (fired, w') = notify req subj public_url rules false w in (ok fired, w')

  -- applyNotifications
  unfoldable pub apply_notifications : Request → Subject → Exec World Error (Unit {0})
  unfolding notify enabled_rules
  apply_notifications req subj = do
    rules ← query enabled_rules
    public_url ← read_setting (codes "public_url")
    fired ← notify_all req subj public_url rules
    rows_err
    if fired then exec (mark_notified req.id) else pure tt

  -- Classify
  unfoldable pub classify : Request → Subject → Exec World Error (Unit {0})
  unfolding apply_scope apply_notifications
  classify req subj = do apply_scope req subj; apply_notifications req subj
