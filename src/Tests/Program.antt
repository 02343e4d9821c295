-- ===== src/Tests/Program.antt =====
-- The program with concrete packages, and its theorems at inputs that meet their hypotheses.
use ooblivion.Shared.{
  ◌≡◌, refl, sym, ap, subst, arith, ℤ, pos, Str, codes, str_eq, str_eq_iff, has_prefix, Bool, true,
  false, none, some, [], ◌∷◌, ◌++◌, inl, if◌then◌else◌,
}
use ooblivion.Exec.{Result, ok, err}
use ooblivion.Db.{World, Error, exec, query_row, faulty, answered}
use ooblivion.Http.{HttpRequest}
use ooblivion.Version.{Build}
use ooblivion.Telegram.Sender.{Bot, status}
use ooblivion.Auth.Passwords.{hash_password}
use ooblivion.Scheduler.Settings.{setting, read_setting}
use ooblivion.Scheduler.{retention_days, flush, run_once}
use ooblivion.Server.Setup.{SetupError, insert_auth, set_password, ensure_auth}
use ooblivion.Admin.{Reply, problem_with}
use ooblivion.Admin.Sessions.{current_claims, session_claims_of}
use ooblivion.Admin.Viewing.{Site}
use ooblivion.Admin.Routes.{
  Route, dashboard_tree, api_login, Found, matched, unmatched, Web, pattern, routes,
}
use ooblivion.Admin.Routes.Mediation.{IsLoggedOnly, routes-IsLoggedOnly}
use ooblivion.Admin.Routes.Reading.{IsMux, routes-get}
use ooblivion.Admin.Requests.Inbox.{save, run, IsDone, run-IsDone}
use ooblivion.Consistency.Runs.{IsSound, Reach-IsSound}
use ooblivion.Consistency.Retention.{IsRetention, Reach-IsRetention}
use ooblivion.Program.{
  Program, up, migrated, fresh, boot, booted, served, start, serve, Reach, created, stepped,
}
use ooblivion.Tests.Samples.{classifying, capturing, host_text, clock, trim_none, world, visit}
use ooblivion.Tests.Console.{console, guarded, padded}
use ooblivion.Tests.Admin.{rules}
use ooblivion.Tests.Query.{query_lib}

abbrev pub bot : Bot
bot = record {
  token = codes "t";
  chat_id = codes "1";
  post_message = λ chat text. status 400 (codes "bad");
  stamp = λ t. t ∷ [];
  status_text = λ code body. body;
}

abbrev build : Build
build = record { version = codes "v1.0"; commit = codes "c"; build_date = [] }

abbrev site : Site
site = record {
  console = console;
  rules = rules;
  queries = query_lib;
  bot = bot;
  thread_id = [];
  default_days = pos 30;
  build = build;
  query_get = λ raw name. [];
  query_escape = λ s. s;
  start_of_day = λ now. 0 ∷ [];
  unmarshal = λ text. [];
}

abbrev no_page : Reply
no_page = problem_with 404 (codes "404 page not found")

-- A choice by the method alone.
abbrev found_by : Bool → Bool → Found
found_by true post = matched dashboard_tree []
found_by false true = matched api_login []
found_by false false = unmatched no_page

abbrev web : Web
web = record {
  find = λ r. found_by (str_eq r.method (codes "GET")) (str_eq r.method (codes "POST"));
  static = λ r. no_page;
  read_password = λ r. some (codes "guess");
  read_passwords = λ r. none;
  read_ids = λ r. none;
  read_settings = λ r. none;
  read_payload = λ r. none;
  parse_form = λ r. none;
}

abbrev pub program : Program
program = record {
  site = site;
  web = web;
  capturing = capturing;
  classifying = classifying;
  host_text = host_text;
  admin_hosts = codes "console.example" ∷ [];
  health_secret = codes "s3cret";
  admin_password = codes "0123456789abcdef";
  write = λ reply. record { status = reply.status; body = [] };
}

abbrev IsServedBy : Str → Route → Type 0
IsServedBy method route =
    has_prefix (pattern route)
      ((if str_eq method (codes "HEAD") then codes "GET" else method) ++ codes " ")
    ≡ true

abbrev route_of : Found → Route
route_of (matched route id) = route
route_of (unmatched reply) = dashboard_tree

served_by :
    (method : Str) (get post : Bool) (route : Route) (id : Str)
    → str_eq method (codes "GET") ≡ get
    → str_eq method (codes "POST") ≡ post
    → found_by get post ≡ matched route id
    → IsServedBy method route
unfolding pattern has_prefix str_eq
served_by method true post route id h k e =
    subst (IsServedBy method) (ap route_of e)
      (subst (λ m. IsServedBy m dashboard_tree) (sym ((str_eq_iff method (codes "GET")).0 h)) refl)
served_by method false true route id h k e =
    subst (IsServedBy method) (ap route_of e)
      (subst (λ m. IsServedBy m api_login) (sym ((str_eq_iff method (codes "POST")).0 k)) refl)
served_by method false false route id h k e = ground (arith, e)

web-IsMux : IsMux web
web-IsMux = record { serves = λ r route id e. served_by r.method _ _ route id refl refl e }

no_session : (current_claims console visit 10 guarded).0 ≡ err tt
unfolding current_claims session_claims_of
no_session = refl

routes-IsLoggedOnly_example : IsLoggedOnly guarded.db (routes site web 10 none visit guarded).1.db
routes-IsLoggedOnly_example = routes-IsLoggedOnly site web 10 none visit guarded no_session

abbrev get_visit : HttpRequest
get_visit = record visit { method = codes "GET" }

routes-get_example : (routes site web 10 none get_visit guarded).1.db ≡ guarded.db
routes-get_example = routes-get site web 10 none get_visit guarded web-IsMux (inl refl)

run-IsDone_example :
    IsDone
      (save (codes "1"))
      world.db
      (run clock trim_none visit 9 (save (codes "1")) world).1.db
      (run clock trim_none visit 9 (save (codes "1")) world).0
run-IsDone_example = run-IsDone clock trim_none visit 9 (save (codes "1")) world

abbrev first_boot : Result SetupError (Unit {0}) × World
first_boot = boot program (some (codes "s")) 9 (fresh [] migrated)

boot_lem : first_boot.0 ≡ ok tt
unfolding boot ensure_auth set_password insert_auth hash_password exec query_row faulty answered
    run_once flush read_setting setting padded
boot_lem = refl

abbrev pub running : World
running = first_boot.1

booted_lem : (o : Result SetupError (Unit {0}) × World) → o.0 ≡ ok tt → booted program o ≡ up o.1
booted_lem (ok a, w) h = refl
booted_lem (err e, w) h = ground (arith, h)

pub first_run : Reach program (up running)
first_run =
    subst (Reach program) (booted_lem first_boot boot_lem)
      (stepped _ _ created (start migrated [] (some (codes "s")) 9))

second_run : Reach program (up (served program [] 10 none visit running))
second_run = stepped _ _ first_run (serve running [] 10 none visit)

Reach-IsSound_example : IsSound program (up (served program [] 10 none visit running))
Reach-IsSound_example =
    Reach-IsSound program (up (served program [] 10 none visit running)) second_run

Reach-IsRetention_example :
    (days : ℤ) × ((retention_days {E = Error} (pos 30) (record running { faults = [] })).0
      ≡ ok days)
    × IsRetention days
Reach-IsRetention_example = Reach-IsRetention program running [] first_run
