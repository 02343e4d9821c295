-- ===== src/Program/Launch.antt =====
-- main of cmd/ooblivion/main.go up to the server: the configuration, the database, the first
-- password, and the components made of them. The embedded templates are taken to parse.
use ooblivion.Shared.{
  ◌≤◌, ◌⊎◌, length, [], arith, ◌≡◌, subst, refl, ℕ, pos, Str, codes, Bool, Option, List,
}
use ooblivion.Exec.{Result, ok, err}
use ooblivion.Db.{Tables, World}
use ooblivion.Db.Migrations.{Outcome, Handle}
use ooblivion.Db.Opening.{OpenError, Disk, HasModes, owner_file, open_db, open_db_lem}
use ooblivion.Config.{Config, ConfigError, load, checked, get_env, max_body_of, parse_hosts}
use ooblivion.Config.Limits.{load_path}
use ooblivion.Server.Setup.{SetupError}
use ooblivion.Program.{Program, fresh, boot}
use ooblivion.Program.Credentials.{HasAdmin, boot-HasAdmin}

-- why logger.Fatalf ends the process
pub data Exit : Type 0 where
  config_error : ConfigError → Exit
  db_error : OpenError → Exit
  auth_error : SetupError → Exit

-- what the constructors of the packages take from the configuration
unfoldable pub configured : Program → Config → Program
configured p cfg = record p {
  site = record p.site {
    console = record p.site.console { secret = cfg.jwt_secret; session_ttl = pos cfg.session_ttl };
    bot = record p.site.bot { token = cfg.telegram_token; chat_id = cfg.telegram_chat_id };
    thread_id = cfg.telegram_thread_id;
    default_days = pos 30;
  };
  capturing = record p.capturing { max_body = cfg.max_body_bytes };
  classifying = record p.classifying { token = cfg.telegram_token };
  admin_hosts = cfg.admin_hosts;
  health_secret = cfg.health_check_secret;
  admin_password = cfg.admin_password;
}

-- DatabasePath of the configuration
abbrev pub path_of : (Str → Str) → Str
path_of env = get_env env (codes "DATABASE_PATH") (codes "data/ooblivion.db")

-- The program as the environment wants it: each secret, address and limit is that of its variable,
-- and the ones with a least length have it.
pub record IsConfigured (env : Str → Str) (q : Program) : Type 0 where
  pub secret : q.site.console.secret ≡ env (codes "JWT_SECRET")
  pub long_secret : 64 ≤ length q.site.console.secret
  pub password : q.admin_password ≡ env (codes "ADMIN_PASSWORD")
  pub long_password : (q.admin_password ≡ []) ⊎ (16 ≤ length q.admin_password)
  pub hosts : q.admin_hosts ≡ parse_hosts q.host_text (env (codes "ADMIN_HOST"))
  pub health : q.health_secret ≡ env (codes "HEALTH_CHECK_SECRET")
  pub bot_token : q.site.bot.token ≡ env (codes "TELEGRAM_BOT_TOKEN")
  pub alert_token : q.classifying.token ≡ env (codes "TELEGRAM_BOT_TOKEN")
  pub chat : q.site.bot.chat_id ≡ env (codes "TELEGRAM_CHAT_ID")
  pub thread : q.site.thread_id ≡ env (codes "TELEGRAM_THREAD_ID")
  pub limit : max_body_of (env (codes "MAX_BODY_BYTES")) ≡ ok q.capturing.max_body
  pub ttl : q.site.console.session_ttl ≡ pos 12

load-IsConfigured :
    (p : Program) (env : Str → Str) (cfg : Config)
    → load p.host_text env ≡ ok cfg
    → IsConfigured env (configured p cfg)
unfolding load checked configured
load-IsConfigured p env cfg h = record {
  secret = ground (arith, h);
  long_secret = ground (arith, h);
  password = ground (arith, h);
  long_password = ground (arith, h);
  hosts = ground (arith, h);
  health = ground (arith, h);
  bot_token = ground (arith, h);
  alert_token = ground (arith, h);
  chat = ground (arith, h);
  thread = ground (arith, h);
  limit = ground (arith, h);
  ttl = ground (arith, h);
}

module _ {F : Type 0} (p : Program) (disk : Disk F Tables)
    (execute : Str → Tables → Outcome × Tables) (names : List Str) where
  abbrev set_up : Program → Result SetupError (Unit {0}) × World → Result Exit (Program × World)
  set_up q (ok tt, w) = ok (q, w)
  set_up q (err e, w) = err (auth_error e)

  abbrev serving :
      Program
      → List Bool
      → Option Str
      → ℕ
      → Result OpenError (Handle Tables)
      → Result Exit (Program × World)
  serving q faults salt now (ok h) = set_up q (boot q salt now (fresh faults h.schema))
  serving q faults salt now (err e) = err (db_error e)

  abbrev opened :
      Program
      → List Bool
      → Option Str
      → ℕ
      → Result OpenError (Handle Tables) × F
      → Result Exit (Program × World) × F
  opened q faults salt now (r, s) = (serving q faults salt now r, s)

  abbrev launched :
      List Bool → Option Str → ℕ → F → Result ConfigError Config → Result Exit (Program × World) × F
  launched faults salt now s (err e) = (err (config_error e), s)
  launched faults salt now s (ok cfg) =
      opened (configured p cfg) faults salt now (open_db disk execute names cfg.database_path s)

  -- main, to the program that serves and the world in which it begins; the environment, the faults
  -- of the database after its opening, what crypto/rand gives, and the time
  unfoldable pub launch :
      (Str → Str) → List Bool → Option Str → ℕ → F → Result Exit (Program × World) × F
  unfolding load open_db boot configured
  launch env faults salt now s = launched faults salt now s (load p.host_text env)

  module _ (mode : Str → F → ℕ) (modes : HasModes disk mode) (env : Str → Str) (faults : List Bool)
      (salt : Option Str) (now : ℕ) (s : F) where
    -- What holds when the server begins: of the program, of the file, and of the database.
    abbrev pub IsReady : Result Exit (Program × World) × F → Type 0
    IsReady (ok (q, w), s') =
        IsConfigured env q × (mode (path_of env) s' ≡ owner_file) × HasAdmin w.db
    IsReady (err e, s') = Unit {0}

    private_file :
        (cfg : Config) (h : Handle Tables)
        → load p.host_text env ≡ ok cfg
        → (open_db disk execute names cfg.database_path s).0 ≡ ok h
        → mode (path_of env) (open_db disk execute names cfg.database_path s).1 ≡ owner_file
    private_file cfg h loaded found =
        subst (λ file. mode file (open_db disk execute names cfg.database_path s).1 ≡ owner_file)
          (load_path p.host_text env cfg loaded)
          (open_db_lem disk execute names mode modes cfg.database_path s h found).0

    started-IsReady :
        (q : Program) (s' : F) (o : Result SetupError (Unit {0}) × World)
        → IsConfigured env q
        → mode (path_of env) s' ≡ owner_file
        → (o.0 ≡ ok tt → HasAdmin o.1.db)
        → IsReady (set_up q o, s')
    started-IsReady q s' (ok tt, w) fits private has = (fits, private, has refl)
    started-IsReady q s' (err e, w) fits private has = tt

    opened-IsReady :
        (cfg : Config) (r : Result OpenError (Handle Tables))
        → load p.host_text env ≡ ok cfg
        → (open_db disk execute names cfg.database_path s).0 ≡ r
        → IsReady (
          serving (configured p cfg) faults salt now r,
          (open_db disk execute names cfg.database_path s).1,
        )
    opened-IsReady cfg (ok h) loaded found =
        started-IsReady (configured p cfg) _
          (boot (configured p cfg) salt now (fresh faults h.schema))
          (load-IsConfigured p env cfg loaded) (private_file cfg h loaded found)
          (boot-HasAdmin (configured p cfg) salt now (fresh faults h.schema))
    opened-IsReady cfg (err e) loaded found = tt

    loaded-IsReady :
        (r : Result ConfigError Config)
        → load p.host_text env ≡ r
        → IsReady (launched faults salt now s r)
    loaded-IsReady (err e) loaded = tt
    loaded-IsReady (ok cfg) loaded = opened-IsReady cfg _ loaded refl

    -- When the process comes to serve, whatever faults its database has: the program that serves
    -- has the JWT secret, the password, the health secret, the bot, the admin hosts and the body
    -- limit of the environment's variables, with a secret of at least 64 bytes and a password that
    -- is unset or has at least 16; the database's file is its owner's alone, for reading and
    -- writing; and the table of passwords has the administrator's row.
    pub launch_lem :
        (q : Program) (w : World)
        → (launch env faults salt now s).0 ≡ ok (q, w)
        → IsConfigured env q
          × (mode (path_of env) (launch env faults salt now s).1 ≡ owner_file)
          × HasAdmin w.db
    unfolding launch
    launch_lem q w up =
        subst (λ r. IsReady (r, (launch env faults salt now s).1)) up
          (loaded-IsReady (load p.host_text env) refl)
