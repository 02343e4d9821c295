-- ===== src/Admin/Settings.antt =====
-- handleGetSettings and handlePutSettings of internal/admin/handlers_settings.go.
pub mod Stored
use ooblivion.Shared.{
  ℕ, zero, suc, ℤ, pos, negsuc, Str, codes, str_eq, itoa, Bool, true, false, not, ◌||◌, ◌&&◌,
  Option, none, some, leb, ltb, is_empty, if◌then◌else◌,
}
use ooblivion.Exec.{Exec, ◌>>=◌, ◌>>◌, pure, raise, gets, or_else}
use ooblivion.Db.{World, Error}
use ooblivion.Http.{HttpRequest}
use ooblivion.Http.ClientIp.{auth_client_ip}
use ooblivion.Scheduler.{Clock, retention_days}
use ooblivion.Scheduler.Settings.{read_setting, write_setting}
use ooblivion.Admin.Pages.{SettingsAnswer}
use ooblivion.Admin.{Reply, Handler, problem_with, server_error, success, answer, log_audit}

pub record SettingsBody : Type 0 where
  pub public_url : Option Str
  pub retention_days : Option ℤ
  pub auto_flush_enabled : Option Bool

abbrev pub in_range : Option ℤ → Bool
in_range none = true
in_range (some (pos n)) = ltb 0 n && leb n 3650
in_range (some (negsuc n)) = false

abbrev pub write_some : Str → Option Str → Exec World Reply (Unit {0})
write_some key none = pure tt
write_some key (some value) = or_else server_error (write_setting key value)

abbrev pub days_text : Option ℤ → Option Str
days_text none = none
days_text (some days) = some (itoa days)

abbrev pub flag_text : Option Bool → Option Str
flag_text none = none
flag_text (some enabled) = some (if enabled then codes "1" else codes "0")

abbrev pub body_or : Option SettingsBody → Exec World Reply SettingsBody
body_or none = raise (problem_with 400 (codes "invalid body"))
body_or (some body) = pure body

abbrev pub guard : Bool → Reply → Exec World Reply (Unit {0})
guard true r = pure tt
guard false r = raise r

-- handlePutSettings
unfoldable pub put_settings : Clock → (Str → Str) → HttpRequest → Option SettingsBody → ℕ → Handler
unfolding write_setting log_audit auth_client_ip
put_settings clock trim_space r body now = do
  b ← body_or body
  guard (in_range b.retention_days) (problem_with 400 (codes "retention_days out of range"))
  write_some (codes "public_url") b.public_url
  write_some (codes "retention_days") (days_text b.retention_days)
  write_some (codes "auto_flush_enabled") (flag_text b.auto_flush_enabled)
  log_audit clock (codes "settings_update") (codes "settings changed") (auth_client_ip trim_space r)
      now
  pure (answer success)

-- handleGetSettings, with the default of the retention and the two Telegram texts of the
-- configuration
unfoldable pub get_settings : ℤ → Str → Str → Exec World Reply SettingsAnswer
unfolding read_setting retention_days
get_settings default_days token chat_id = do
  url ← read_setting (codes "public_url")
  days ← retention_days default_days
  flag ← read_setting (codes "auto_flush_enabled")
  last ← gets (λ w. w.last_flush_at)
  pure (record {
    public_url = url;
    retention_days = days;
    auto_flush_enabled = not (str_eq flag (codes "0"));
    telegram_enabled = not (is_empty token) && not (is_empty chat_id);
    last_flush_at = last;
  })
