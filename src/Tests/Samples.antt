-- ===== src/Tests/Samples.antt =====
-- Sample data: the parameters of the components as concrete functions, and a small database.
use ooblivion.Shared.{
  ℕ, ◌+◌, ◌-◌, ◌*◌, ℤ, pos, negsuc, Str, codes, str_eq, str_lt, true, false, none, some, [], ◌∷◌,
  ◌≡◌, ◌≤◌, suc, arith, map, leb, ◌&&◌, if◌then◌else◌,
}
use ooblivion.Matcher.{TextLib}
use ooblivion.Models.{Request, Scope, NotificationRule, NotificationLog}
use ooblivion.Db.{Tables, World}
use ooblivion.Http.{Body, HttpRequest}
use ooblivion.Config.{HostText}
use ooblivion.Capture.{Capturing}
use ooblivion.Capture.Classify.{Classifying}
use ooblivion.Scheduler.{Clock}
use ooblivion.Scheduler.Retention.{IsOrdered}
use ooblivion.Server.{RootHandler}

abbrev lower_byte : ℕ → ℕ
lower_byte c = if leb b'A' c && leb c b'Z' then c + 32 else c

abbrev pub lower_ascii : Str → Str
lower_ascii s = map lower_byte s

abbrev pub trim_none : Str → Str
trim_none s = s

abbrev pub ascii : TextLib
ascii = record {
  to_lower = lower_ascii;
  equal_fold = λ a b. str_eq (lower_ascii a) (lower_ascii b);
  compile = λ p. none;
}

abbrev pub host_text : HostText
host_text = record { to_lower = lower_ascii; trim_space = trim_none }

abbrev shifted : ℕ → ℤ → ℕ
shifted now (pos d) = now + d
shifted now (negsuc d) = now - suc d

-- Instants as texts of one number.
abbrev pub clock : Clock
clock = record {
  stamp = λ t. t ∷ [];
  stamp_add = λ now d. shifted now d ∷ [];
  stamp_months_ago = λ now n. (now - n * 30) ∷ [];
}

pub clock-IsOrdered : IsOrdered clock
clock-IsOrdered = record { late = λ now t d h. late_lem now t d h }
  where
    late_lem : (now t d : ℕ) → now ≤ t + suc d → str_lt (t ∷ []) ((now - suc d) ∷ []) ≡ false
    late_lem now t d h = unfold str_lt in ground arith

abbrev pub classifying : Classifying
classifying = record { lib = ascii; parse_local = λ ts. none; token = codes "t" }

abbrev pub capturing : Capturing
capturing = record {
  marshal = λ headers. codes "{}";
  stamp = λ t. t ∷ [];
  trim_space = trim_none;
  max_body = pos 4;
}

abbrev pub root : RootHandler
root = record {
  capturing = capturing;
  classifying = classifying;
  host_text = host_text;
  unmarshal = λ text. [];
  admin = λ r w. (record { status = 404; body = [] }, w);
  admin_hosts = codes "console.example" ∷ [];
  health_secret = codes "s3cret";
}

abbrev pub old_request : Request
old_request = record {
  id = 1;
  method = codes "GET";
  scheme = codes "http";
  host = codes "a.example";
  path = codes "/old";
  query = [];
  http_version = codes "HTTP/1.1";
  request_headers = codes "{}";
  body = [];
  body_truncated = false;
  source_ip = codes "10.0.0.1";
  remote_addr = codes "10.0.0.1:9";
  forwarded_for = [];
  user_agent = [];
  content_type = [];
  ip_country = [];
  saved = false;
  scope_id = none;
  notified = false;
  created_at = 5 ∷ [];
}

abbrev pub saved_request : Request
saved_request = record old_request { id = 2; path = codes "/kept"; saved = true; scope_id = some 1 }

abbrev pub path_scope : Scope
path_scope = record {
  id = 1;
  name = codes "low";
  match_on = codes "path";
  match_type = codes "contains";
  pattern = codes "SAVE";
  header_name = none;
  enabled = true;
  priority = pos 0;
  created_at = 1 ∷ [];
  updated_at = 1 ∷ [];
}

abbrev pub host_scope : Scope
host_scope = record path_scope {
  id = 2;
  match_on = codes "host";
  pattern = codes "b.example";
  priority = pos 3;
}

abbrev pub path_rule : NotificationRule
path_rule = record {
  id = 1;
  name = codes "saved-path";
  match_on = codes "path";
  match_type = codes "prefix";
  pattern = codes "/save";
  header_name = none;
  enabled = true;
  created_at = 1 ∷ [];
  updated_at = 1 ∷ [];
}

abbrev pub old_log : NotificationLog
old_log = record {
  id = 1;
  rule_id = some 1;
  request_id = some 1;
  ok = false;
  response = codes "down";
  sent_at = 6 ∷ [];
}

abbrev pub tables : Tables
tables = record {
  requests = old_request ∷ saved_request ∷ [];
  scopes = path_scope ∷ host_scope ∷ [];
  notification_rules = path_rule ∷ [];
  notification_log = old_log ∷ [];
  auth = none;
  jwt_denylist = [];
  settings = (codes "retention_days", codes "1") ∷ [];
  audit_log = [];
  total_captured = 2;
  last_request = 2;
  last_scope = 2;
  last_rule = 1;
  last_log = 1;
  last_audit = 0;
}

abbrev pub world : World
world = record {
  db = tables;
  faults = [];
  queue = [];
  flushing = false;
  last_flush_at = [];
  attempts = [];
}

abbrev pub new_body : Body
new_body = record { bytes = codes "hello"; broken = false }

abbrev pub visit : HttpRequest
visit = record {
  method = codes "POST";
  host = codes "b.example";
  path = codes "/save/1";
  raw_query = codes "q=1";
  proto = codes "HTTP/1.1";
  tls = false;
  remote_addr = codes "10.0.0.2:77";
  header = (codes "User-Agent", codes "curl" ∷ []) ∷ [];
  cookies = [];
  body = some new_body;
}

abbrev pub probe : HttpRequest
probe = record visit {
  path = codes "/healthz";
  header = (codes "X-Health-Check", codes "s3cret" ∷ []) ∷ [];
}
