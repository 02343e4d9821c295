-- ===== src/Tests/Launch.antt =====
-- The start of the process, on files that are a function from paths to modes.
use ooblivion.Shared.{
  ◌≡◌, refl, ℕ, Str, codes, str_eq, str_eq_refl, str_lt, split, none, some, [], ◌∷◌, any, order_by,
  insert, if◌then◌else◌, last_index,
}
use ooblivion.Exec.{Result, ok, err}
use ooblivion.Db.{World, Tables, exec, query_row, faulty, answered}
use ooblivion.Db.Migrations.{
  Outcome, finished, migrate, apply_all, apply_one, is_applied, run_script, mark_applied,
}
use ooblivion.Db.Opening.{Disk, HasModes, owner_file, open_db, preparing_dir, connecting, migrating}
use ooblivion.Config.{load, checked, max_body_of, get_env, parse_hosts, hosts_of, strip_port}
use ooblivion.Auth.Passwords.{hash_password}
use ooblivion.Scheduler.{run_once}
use ooblivion.Scheduler.Settings.{setting, read_setting}
use ooblivion.Server.Setup.{insert_auth, set_password, ensure_auth}
use ooblivion.Program.{Program, migrated, boot}
use ooblivion.Program.Credentials.{HasAdmin}
use ooblivion.Program.Launch.{Exit, IsConfigured, launch, configured, path_of, launch_lem}
use ooblivion.Tests.Samples.{world}
use ooblivion.Tests.Console.{padded}
use ooblivion.Tests.Program.{program}

abbrev Files : Type 0
Files = Str → ℕ

abbrev mode_of : Str → Files → ℕ
mode_of file s = s file

abbrev disk : Disk Files Tables
disk = record {
  dir = λ file. codes "data";
  mkdir_all = λ file m s. (none, s);
  chmod = λ file m s. (none, λ other. if str_eq file other then m else s other);
  connect = λ dsn s. (ok (record { schema = migrated; applied = []; faults = [] }), s);
  ping = λ h s. (none, s);
}

disk-HasModes : HasModes disk mode_of
disk-HasModes = record { chmod_sets = λ file m s done. rw (str_eq_refl file) refl }

abbrev script : Str → Tables → Outcome × Tables
script name t = (finished, t)

-- a secret of 64 bytes
abbrev secret : Str
secret = codes "0123456789abcdef0123456789abcdef0123456789abcdef0123456789abcdef"

abbrev environment : Str → Str
environment key =
    if str_eq key (codes "JWT_SECRET")
    then secret
    else if str_eq key (codes "ADMIN_PASSWORD")
    then codes "0123456789abcdef"
    else []

abbrev begun_or : Result Exit (Program × World) → Program × World
begun_or (ok begun) = begun
begun_or (err e) = (program, world)

abbrev begun : Result Exit (Program × World) × Files
begun =
    launch program disk script (codes "001_init.sql" ∷ []) environment [] (some (codes "s")) 9
      (λ f. 0)

launched_lem : begun.0 ≡ ok (begun_or begun.0)
unfolding launch configured load checked max_body_of get_env parse_hosts hosts_of strip_port open_db
    preparing_dir connecting migrating migrate apply_all apply_one is_applied run_script
    mark_applied order_by insert str_lt str_eq any boot ensure_auth set_password insert_auth
    hash_password padded exec query_row faulty answered read_setting setting run_once split
    last_index
launched_lem = refl

launch_lem_example :
    IsConfigured environment (begun_or begun.0).0
    × (mode_of (path_of environment) begun.1 ≡ owner_file)
    × HasAdmin (begun_or begun.0).1.db
launch_lem_example =
    launch_lem program disk script (codes "001_init.sql" ∷ []) mode_of disk-HasModes environment []
      (some (codes "s")) 9 (λ f. 0) (begun_or begun.0).0 (begun_or begun.0).1 launched_lem
