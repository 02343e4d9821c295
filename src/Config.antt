-- ===== src/Config.antt =====
-- internal/config/config.go. The environment (after godotenv has read the file .env) is a function
-- from names to values, the empty string where a name is not set; strings.ToLower and
-- strings.TrimSpace are parameters.
pub mod Limits
use ooblivion.Shared.{
  ℕ, suc, ℤ, pos, Str, codes, is_empty, contains, split, last_index, take, drop, length, ltb, atoi,
  Bool, true, false, not, ◌&&◌, Option, none, some, List, [], ◌∷◌, if◌then◌else◌,
}
use ooblivion.Exec.{Result, ok, err}

pub record Config : Type 0 where
  pub listen_addr : Str
  pub database_path : Str
  pub jwt_secret : Str
  pub admin_password : Str
  pub telegram_token : Str
  pub telegram_chat_id : Str
  pub telegram_thread_id : Str
  pub log_level : Str
  pub max_body_bytes : ℤ
  pub session_ttl : ℕ
  pub admin_hosts : List Str
  pub health_check_secret : Str

pub data ConfigError : Type 0 where
  bad_max_body short_secret short_password : ConfigError

-- strings.ToLower and strings.TrimSpace
pub record HostText : Type 0 where
  pub to_lower : Str → Str
  pub trim_space : Str → Str

-- `i != -1 && !strings.Contains(host[i+1:], "]")`, and then host[:i]
abbrev without_port : Str → Option ℕ → Str
without_port host none = host
without_port host (some i) = if contains (drop (suc i) host) (codes "]") then host else take i host

unfoldable pub strip_port : Str → Str
strip_port host = without_port host (last_index b':' host)

module _ (t : HostText) where
  -- the loop over the parts; `continue` on a part that is empty
  unfoldable pub hosts_of : List Str → List Str
  unfolding strip_port
  hosts_of [] = []
  hosts_of (part ∷ parts) =
      let host = t.to_lower (t.trim_space part) in
      let rest = hosts_of parts in
      if is_empty host
      then rest
      else if is_empty (strip_port host)
      then rest
      else strip_port host ∷ rest

  -- parseHosts
  unfoldable pub parse_hosts : Str → List Str
  unfolding hosts_of
  parse_hosts raw = hosts_of (split b',' raw)

-- getEnv
unfoldable pub get_env : (Str → Str) → Str → Str → Str
get_env env key fallback = if is_empty (env key) then fallback else env key

abbrev parsed : ℤ × Bool → Result ConfigError ℤ
parsed (n, true) = ok n
parsed (n, false) = err bad_max_body

unfoldable pub max_body_of : Str → Result ConfigError ℤ
max_body_of v = if is_empty v then ok (pos 1048576) else parsed (atoi v)

-- the two checks on lengths, and the configuration that passes them
unfoldable pub checked : Config → Result ConfigError Config
checked cfg =
    if ltb (length cfg.jwt_secret) 64
    then err short_secret
    else if not (is_empty cfg.admin_password) && ltb (length cfg.admin_password) 16
    then err short_password
    else ok cfg

-- Load
unfoldable pub load : HostText → (Str → Str) → Result ConfigError Config
unfolding checked max_body_of get_env parse_hosts
load t env = elim (max_body_of (env (codes "MAX_BODY_BYTES"))) [
  | err e ↦ err e
  | ok max_body ↦ checked (record {
    listen_addr = get_env env (codes "OOB_LISTEN_ADDR") (codes ":8080");
    database_path = get_env env (codes "DATABASE_PATH") (codes "data/ooblivion.db");
    jwt_secret = env (codes "JWT_SECRET");
    admin_password = env (codes "ADMIN_PASSWORD");
    telegram_token = env (codes "TELEGRAM_BOT_TOKEN");
    telegram_chat_id = env (codes "TELEGRAM_CHAT_ID");
    telegram_thread_id = env (codes "TELEGRAM_THREAD_ID");
    log_level = get_env env (codes "LOG_LEVEL") (codes "info");
    max_body_bytes = max_body;
    session_ttl = 12;
    admin_hosts = parse_hosts t (env (codes "ADMIN_HOST"));
    health_check_secret = env (codes "HEALTH_CHECK_SECRET");
  })
]
