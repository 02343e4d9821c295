-- ===== src/Program.antt =====
-- main of cmd/ooblivion/main.go: the parts of the program put together, its start, and its run as a
-- sequence of steps. A step is one request, one round of the alerts' worker or one run of the
-- scheduler, each with any faults of the database; steps do not overlap.
pub mod Launch
pub mod Credentials
use ooblivion.Shared.{ℕ, pos, Str, codes, Bool, false, Option, none, List, []}
use ooblivion.Exec.{Result, ok, err, Exec, ◌>>=◌, ◌>>◌, modify, ignore}
use ooblivion.Db.{Tables, World}
use ooblivion.Http.{HttpRequest, Response}
use ooblivion.Config.{HostText}
use ooblivion.Capture.{Capturing}
use ooblivion.Capture.Classify.{Classifying}
use ooblivion.Telegram.Sender.{run_one}
use ooblivion.Scheduler.{run_once}
use ooblivion.Scheduler.Settings.{read_setting}
use ooblivion.Server.{RootHandler, serve_http}
use ooblivion.Server.Setup.{SetupError, ensure_auth}
use ooblivion.Admin.{Reply}
use ooblivion.Admin.Viewing.{Site}
use ooblivion.Admin.Routes.{Web, routes}

-- the configuration and the packages; `write` is the JSON encoder with the templates
pub record Program : Type 0 where
  pub site : Site
  pub web : Web
  pub capturing : Capturing
  pub classifying : Classifying
  pub host_text : HostText
  pub admin_hosts : List Str
  pub health_secret : Str
  pub admin_password : Str
  pub write : Reply → Response

-- the tables that the migrations make
abbrev pub migrated : Tables
migrated = record {
  requests = [];
  scopes = [];
  notification_rules = [];
  notification_log = [];
  auth = none;
  jwt_denylist = [];
  settings = [];
  audit_log = [];
  total_captured = 0;
  last_request = 0;
  last_scope = 0;
  last_rule = 0;
  last_log = 0;
  last_audit = 0;
}

-- the shared state of a process that begins
abbrev pub fresh : List Bool → Tables → World
fresh faults t = record {
  db = t;
  faults = faults;
  queue = [];
  flushing = false;
  last_flush_at = [];
  attempts = [];
}

-- the process is not running, or it is
pub data State : Type 0 where
  down : Tables → State
  up : World → State

module _ (p : Program) where
  abbrev write_reply : Reply × World → Response × World
  write_reply (reply, w) = (p.write reply, w)

  -- the literal `root`, at an instant and with what crypto/rand gives
  unfoldable pub root_at : ℕ → Option Str → RootHandler
  unfolding routes
  root_at now random = record {
    capturing = p.capturing;
    classifying = p.classifying;
    host_text = p.host_text;
    unmarshal = p.site.unmarshal;
    admin = λ r w. write_reply (routes p.site p.web now random r w);
    admin_hosts = p.admin_hosts;
    health_secret = p.health_secret;
  }

  -- ensureAuth, scheduler.New and the first RunOnce
  unfoldable pub boot : Option Str → ℕ → Exec World SetupError (Unit {0})
  unfolding ensure_auth read_setting run_once
  boot salt now = do
    ensure_auth p.site.console.passwords p.site.console.clock p.admin_password salt now
    last ← read_setting (codes "last_flush_at")
    modify (λ w. record w { last_flush_at = last })
    ignore (run_once p.site.console.clock (pos 30) now)

  -- a start that fails ends the process
  abbrev pub booted : Result SetupError (Unit {0}) × World → State
  booted (ok tt, w) = up w
  booted (err e, w) = down w.db

  unfoldable pub served : List Bool → ℕ → Option Str → HttpRequest → World → World
  unfolding root_at serve_http
  served faults now random r w =
      (serve_http (root_at now random) now r (record w { faults = faults })).1

  pub data Step : State → State → Type 0 where
    start :
        (t : Tables) (faults : List Bool) (salt : Option Str) (now : ℕ)
        → Step (down t) (booted (boot salt now (fresh faults t)))
    serve :
        (w : World) (faults : List Bool) (now : ℕ) (random : Option Str) (r : HttpRequest)
        → Step (up w) (up (served faults now random r w))
    deliver :
        (w : World) (faults : List Bool) (now : ℕ)
        → Step (up w) (up (run_one p.site.bot now (record w { faults = faults })))
    maintain :
        (w : World) (faults : List Bool) (now : ℕ)
        → Step
            (up w)
            (up (run_once p.site.console.clock (pos 30) now (record w { faults = faults })).1)
    stop : (w : World) → Step (up w) (down w.db)

  -- the states of all runs from a new database on
  pub data Reach : State → Type 0 where
    created : Reach (down migrated)
    stepped : (s s' : State) → Reach s → Step s s' → Reach s'
