-- ===== src/Config/Limits.antt =====
-- What a configuration that Load of internal/config/config.go returns is known to satisfy.
use ooblivion.Shared.{ℤ, true, false, ◌≡◌, Str, codes, is_empty, arith, atoi}
use ooblivion.Exec.{ok}
use ooblivion.Config.{Config, HostText, checked, load, get_env, max_body_of}

-- The limit on bodies is the parsed number, whatever its sign: Load refuses only what is no 64-bit
-- number.
pub load_max_body :
    (t : HostText) (env : Str → Str) (cfg : Config) (n : ℤ)
    → is_empty (env (codes "MAX_BODY_BYTES")) ≡ false
    → atoi (env (codes "MAX_BODY_BYTES")) ≡ (n, true)
    → load t env ≡ ok cfg
    → cfg.max_body_bytes ≡ n
unfolding load checked max_body_of
load_max_body t env cfg n set e h = ground arith

-- The path of the database is DATABASE_PATH, or its default.
pub load_path :
    (t : HostText) (env : Str → Str) (cfg : Config)
    → load t env ≡ ok cfg
    → cfg.database_path ≡ get_env env (codes "DATABASE_PATH") (codes "data/ooblivion.db")
unfolding load checked
load_path t env cfg h = ground arith
