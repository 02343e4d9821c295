-- ===== src/Tests/Server.antt =====
-- cmd/ooblivion/main.go and internal/config/config.go.
use ooblivion.Shared.{
  ℕ, zero, suc, pos, true, some, wrap64, ◌≡◌, refl, arith, Str, codes, str_eq, contains, split,
  last_index, filter, [], ◌∷◌, if◌then◌else◌,
}
use ooblivion.Exec.{ok}
use ooblivion.Http.{HttpRequest, header_get}
use ooblivion.Config.{Config, load, parse_hosts}
use ooblivion.Capture.Bodies.{kept}
use ooblivion.Capture.Saving.{healthy}
use ooblivion.Server.{answered, catch_all, normalize_host, capture, serve_http}
use ooblivion.Server.Routes.{IsProbe, IsGiven, serve_http_other_host}
use ooblivion.Server.Captures.{final_world, capture_lem}
use ooblivion.Capture.{read_body, read_all}
use ooblivion.Scheduler.{flush}
use ooblivion.Interleaving.Captures.{IsAbsent, capture_around, capture_around-flush}
use ooblivion.Tests.Samples.{clock, host_text, root, world, new_body, visit, probe}

capture_lem_example :
    capture root 9 visit (healthy world)
    ≡ (answered catch_all, final_world root 9 visit world (kept 4 new_body))
capture_lem_example =
    capture_lem root 9 visit world 4 new_body refl (omega arith) refl (omega arith) (omega arith)

probe-IsProbe : IsProbe root probe
unfolding header_get str_eq
probe-IsProbe = (refl, (λ e. cc), refl)

abbrev raw : Str
raw = codes "Console.Example:8443"

root_hosts : root.admin_hosts ≡ parse_hosts host_text raw
unfolding parse_hosts split last_index contains
root_hosts = refl

abbrev admin_visit : HttpRequest
admin_visit = record visit { path = codes "/admin/" }

serve_http_other_host_example :
    serve_http root 9 admin_visit world ≡ capture root 9 admin_visit world
unfolding normalize_host header_get split last_index contains filter
serve_http_other_host_example =
    serve_http_other_host root 9 admin_visit world raw root_hosts (λ e. cc) (λ p. cc (p.0))
      not_given
  where
    not_given : ¬ IsGiven root raw admin_visit
    not_given g = ground arith

abbrev secret_from : ℕ → Str
secret_from zero = []
secret_from (suc n) = b'k' ∷ secret_from n

abbrev env : Str → Str
env name = if str_eq name (codes "JWT_SECRET") then secret_from 64 else []

abbrev loaded : Config
loaded = record {
  listen_addr = codes ":8080";
  database_path = codes "data/ooblivion.db";
  jwt_secret = secret_from 64;
  admin_password = [];
  telegram_token = [];
  telegram_chat_id = [];
  telegram_thread_id = [];
  log_level = codes "info";
  max_body_bytes = pos 1048576;
  session_ttl = 12;
  admin_hosts = [];
  health_check_secret = [];
}

load_test : load host_text env ≡ ok loaded
unfolding load split last_index contains str_eq
load_test = refl

-- A scope matches the path of the visit.
visit_body : read_body root.capturing.max_body visit.body ≡ some (kept 4 new_body)
unfolding read_body read_all wrap64
visit_body = refl

capture_around-flush_example :
    let out =
      capture_around root
        (λ v. (flush clock (pos 30) true (codes "ip") 10 v).1)
        9
        visit
        (healthy world) in
    (out.0 ≡ answered catch_all) × IsAbsent (suc world.db.last_request) out.1.db
capture_around-flush_example =
    capture_around-flush root clock (pos 30) (codes "ip") 10 9 visit world (kept 4 new_body)
      (omega arith) refl visit_body
