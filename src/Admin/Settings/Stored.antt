-- ===== src/Admin/Settings/Stored.antt =====
-- What handlePutSettings stores, handleGetSettings of internal/admin/handlers_settings.go answers.
use ooblivion.Shared.{
  ◌≡◌, refl, arith, ℕ, ℤ, pos, negsuc, Str, codes, str_eq, atoi, itoa, Bool, true, not, ◌&&◌,
  is_empty, Option, none, some, List, if◌then◌else◌,
}
use ooblivion.Shared.Digits.{atoi-itoa}
use ooblivion.Exec.{ok}
use ooblivion.Db.{World, exec, query_row, faulty, answered}
use ooblivion.Db.Audit.{insert_audit}
use ooblivion.Http.{HttpRequest}
use ooblivion.Capture.Saving.{healthy}
use ooblivion.Scheduler.{Clock, retention_days, positive_or}
use ooblivion.Scheduler.Settings.{
  setting, put_setting, setting-put_setting, read_setting, write_setting,
}
use ooblivion.Admin.{success, answer, log_audit}
use ooblivion.Admin.Pages.{SettingsAnswer}
use ooblivion.Admin.Settings.{
  SettingsBody, put_settings, get_settings, in_range, days_text, flag_text,
}

abbrev pub put_some : Str → Option Str → List (Str × Str) → List (Str × Str)
put_some key none settings = settings
put_some key (some value) settings = put_setting key value settings

-- The settings after the three writes.
abbrev pub stored : SettingsBody → List (Str × Str) → List (Str × Str)
stored b settings = put_some (codes "auto_flush_enabled") (flag_text b.auto_flush_enabled) (
    put_some (codes "retention_days") (days_text b.retention_days)
      (put_some (codes "public_url") b.public_url settings))

abbrev value_or_empty : Option Str → Str
value_or_empty none = codes ""
value_or_empty (some value) = value

-- What the console shows of some settings.
abbrev pub shown : ℤ → Str → Str → Str → List (Str × Str) → SettingsAnswer
shown default_days token chat_id last settings = record {
  public_url = value_or_empty (setting (codes "public_url") settings);
  retention_days =
      positive_or default_days (atoi (value_or_empty (setting (codes "retention_days") settings)));
  auto_flush_enabled =
      not (str_eq (value_or_empty (setting (codes "auto_flush_enabled") settings)) (codes "0"));
  telegram_enabled = not (is_empty token) && not (is_empty chat_id);
  last_flush_at = last;
}

-- The answer with the fields that a change sets.
abbrev pub changed : SettingsBody → SettingsAnswer → SettingsAnswer
changed b old = record old {
  public_url = elim b.public_url [ none ↦ old.public_url | some url ↦ url ];
  retention_days = elim b.retention_days [ none ↦ old.retention_days | some days ↦ days ];
  auto_flush_enabled = elim b.auto_flush_enabled [
    | none ↦ old.auto_flush_enabled
    | some flag ↦ flag
  ];
}

module _ (default_days : ℤ) (token chat_id last : Str) where
  shown-put_url :
      (url : Option Str) (s : List (Str × Str))
      → shown default_days token chat_id last (put_some (codes "public_url") url s)
        ≡ changed
            (record { public_url = url; retention_days = none; auto_flush_enabled = none })
            (shown default_days token chat_id last s)
  unfolding str_eq
  shown-put_url none s = refl
  shown-put_url (some url) s = ground (
    arith,
    setting-put_setting (codes "public_url") url (codes "public_url") s,
    setting-put_setting (codes "public_url") url (codes "retention_days") s,
    setting-put_setting (codes "public_url") url (codes "auto_flush_enabled") s,
  )

  shown-put_days :
      (days : Option ℤ) (s : List (Str × Str))
      → in_range days ≡ true
      → shown default_days token chat_id last (put_some (codes "retention_days") (days_text days) s)
        ≡ changed
            (record { public_url = none; retention_days = days; auto_flush_enabled = none })
            (shown default_days token chat_id last s)
  unfolding str_eq
  shown-put_days none s h = refl
  shown-put_days (some (negsuc n)) s h = ground arith
  shown-put_days (some (pos n)) s h = ground (
    arith,
    atoi-itoa n,
    setting-put_setting (codes "retention_days") (itoa (pos n)) (codes "public_url") s,
    setting-put_setting (codes "retention_days") (itoa (pos n)) (codes "retention_days") s,
    setting-put_setting (codes "retention_days") (itoa (pos n)) (codes "auto_flush_enabled") s,
  )

  shown-put_flag :
      (flag : Option Bool) (s : List (Str × Str))
      → shown default_days token chat_id last
          (put_some (codes "auto_flush_enabled") (flag_text flag) s)
        ≡ changed
            (record { public_url = none; retention_days = none; auto_flush_enabled = flag })
            (shown default_days token chat_id last s)
  unfolding str_eq
  shown-put_flag none s = refl
  shown-put_flag (some flag) s =
      let value = if flag then codes "1" else codes "0" in
      ground (
        arith,
        setting-put_setting (codes "auto_flush_enabled") value (codes "public_url") s,
        setting-put_setting (codes "auto_flush_enabled") value (codes "retention_days") s,
        setting-put_setting (codes "auto_flush_enabled") value (codes "auto_flush_enabled") s,
      )

put_settings_lem :
    (clock : Clock) (trim_space : Str → Str) (r : HttpRequest) (b : SettingsBody) (now : ℕ)
    (w : World)
    → in_range b.retention_days ≡ true
    → let out = put_settings clock trim_space r (some b) now (healthy w) in
      (out.0 ≡ ok (answer success))
      × (out.1.db.settings ≡ stored b w.db.settings)
      × (out.1.last_flush_at ≡ w.last_flush_at)
unfolding put_settings write_setting log_audit insert_audit exec faulty answered
put_settings_lem clock trim_space r b now w h = ground arith

get_settings-eq :
    (default_days : ℤ) (token chat_id : Str) (w : World)
    → (get_settings default_days token chat_id (healthy w)).0
      ≡ ok (shown default_days token chat_id w.last_flush_at w.db.settings)
unfolding get_settings read_setting retention_days query_row faulty answered
get_settings-eq default_days token chat_id w = ground arith

-- Without faults, after a change of the settings with an absent or allowed retention the console
-- shows the fields that the change set, and all other fields as before.
pub get_settings-put_settings :
    (clock : Clock) (trim_space : Str → Str) (r : HttpRequest) (b : SettingsBody) (now : ℕ)
    (default_days : ℤ) (token chat_id : Str) (w : World) (old : SettingsAnswer)
    → in_range b.retention_days ≡ true
    → (get_settings default_days token chat_id (healthy w)).0 ≡ ok old
    → (get_settings default_days token chat_id
        (healthy (put_settings clock trim_space r (some b) now (healthy w)).1)).0
      ≡ ok (changed b old)
get_settings-put_settings clock trim_space r b now default_days token chat_id w old h e = ground (
  arith,
  put_settings_lem clock trim_space r b now w h,
  get_settings-eq default_days token chat_id w,
  get_settings-eq default_days token chat_id
      (put_settings clock trim_space r (some b) now (healthy w)).1,
  shown-put_url default_days token chat_id w.last_flush_at b.public_url w.db.settings,
  shown-put_days default_days token chat_id w.last_flush_at b.retention_days
      (put_some (codes "public_url") b.public_url w.db.settings) h,
  shown-put_flag default_days token chat_id w.last_flush_at b.auto_flush_enabled (
      put_some (codes "retention_days") (days_text b.retention_days)
        (put_some (codes "public_url") b.public_url w.db.settings)),
)
