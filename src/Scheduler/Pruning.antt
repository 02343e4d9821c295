-- ===== src/Scheduler/Pruning.antt =====
-- The pruning of RunOnce in internal/scheduler/scheduler.go against the revoked tokens.
use ooblivion.Shared.{
  ◌≡◌, ◌∙◌, codes, arith, ℕ, ℤ, Str, str_eq, str_eq_refl, str_lt, Bool, true, false, not, Member,
  List, [], ◌∷◌,
}
use ooblivion.Shared.Select.{any_of_Member, Member-filter}
use ooblivion.Models.{Request}
use ooblivion.Db.{Tables, World, exec, answered, delete_requests, query_row}
use ooblivion.Db.Audit.{insert_audit}
use ooblivion.Auth.Denylist.{is_denied, denylist_prune, delete_expired}
use ooblivion.Scheduler.Settings.{setting, write_setting, read_setting}
use ooblivion.Scheduler.{
  Clock, delete_logs, flush_rows, flush_expired, flush_auto, auto_flush_enabled, flush,
  retention_days, keep_last_logs, delete_old_audit, run_once, Signal, tick, cancelled, start,
}

-- The world after the reading of a setting.
abbrev read_world : Str → World → World
read_world key w = (query_row (λ (t : Tables). setting key t.settings) w).1

read_world-denylist :
    (key : Str) (w : World) → (read_world key w).db.jwt_denylist ≡ w.db.jwt_denylist
unfolding query_row answered
read_world-denylist key w = ground arith

module _ (clock : Clock) (now : ℕ) where
  flush_rows-denylist :
      (action ip : Str) (selected : Request → Bool) (w : World)
      → (flush_rows clock action ip now selected w).1.db.jwt_denylist ≡ w.db.jwt_denylist
  unfolding flush_rows exec delete_logs delete_requests write_setting insert_audit answered
  flush_rows-denylist action ip selected w = ground arith

  flush_expired-denylist :
      (default_days : ℤ) (ip : Str) (w : World)
      → (flush_expired clock default_days ip now w).1.db.jwt_denylist ≡ w.db.jwt_denylist
  unfolding flush_expired retention_days read_setting query_row answered
  flush_expired-denylist default_days ip w =
      flush_rows-denylist _ ip _ (read_world (codes "retention_days") w)
      ∙ read_world-denylist (codes "retention_days") w

  flush_auto-denylist :
      (default_days : ℤ) (ip : Str) (w : World)
      → (flush_auto clock default_days ip now w).1.db.jwt_denylist ≡ w.db.jwt_denylist
  unfolding flush_auto auto_flush_enabled read_setting
  flush_auto-denylist default_days ip w = ground (
    arith,
    flush_expired-denylist default_days ip (read_world (codes "auto_flush_enabled") w),
    read_world-denylist (codes "auto_flush_enabled") w,
  )

  flush-denylist :
      (default_days : ℤ) (ip : Str) (w : World)
      → (flush clock default_days false ip now w).1.db.jwt_denylist ≡ w.db.jwt_denylist
  unfolding flush
  flush-denylist default_days ip w =
      ground (arith, flush_auto-denylist default_days ip (record w { flushing = true }))

  -- After the flush a run changes the denylist by its pruning alone.
  run_once-denylist :
      (default_days : ℤ) (w : World) (row : Str × Str)
      → str_lt row.1 (clock.stamp now) ≡ false
      → Member row w.db.jwt_denylist
      → Member row (run_once clock default_days now w).1.db.jwt_denylist
  unfolding run_once denylist_prune delete_expired keep_last_logs delete_old_audit exec answered
  run_once-denylist default_days w row h m =
      let next = (flush clock default_days false (codes "system") now w).1 in
      ground (
        arith,
        flush-denylist default_days (codes "system") w,
        Member-filter (λ (x : Str × Str). not (str_lt x.1 (clock.stamp now))) row w.db.jwt_denylist
            m,
      )

  -- A run of the scheduler, whatever statements of it fail, leaves every revoked token on the
  -- denylist whose expiry, as a text, does not stand before the time of the run.
  pub run_once-is_denied :
      (default_days : ℤ) (w : World) (jti expires_at : Str)
      → Member (jti, expires_at) w.db.jwt_denylist
      → str_lt expires_at (clock.stamp now) ≡ false
      → is_denied jti (run_once clock default_days now w).1.db ≡ true
  unfolding is_denied
  run_once-is_denied default_days w jti expires_at m h =
      any_of_Member (λ (row : Str × Str). str_eq row.0 jti) (jti, expires_at) _
        (run_once-denylist default_days w (jti, expires_at) h m) (str_eq_refl jti)

-- The expiry, as a text, stands before no tick.
abbrev pub Unexpired : Clock → Str → List Signal → Type 0
Unexpired clock expires_at [] = Unit {0}
Unexpired clock expires_at (cancelled ∷ signals) = Unexpired clock expires_at signals
Unexpired clock expires_at (tick now ∷ signals) =
    (str_lt expires_at (clock.stamp now) ≡ false) × Unexpired clock expires_at signals

start-denylist :
    (clock : Clock) (default_days : ℤ) (signals : List Signal) (w : World) (row : Str × Str)
    → Unexpired clock row.1 signals
    → Member row w.db.jwt_denylist
    → Member row (start clock default_days signals w).1.db.jwt_denylist
unfolding start run_once
start-denylist clock default_days [] w row fresh m = m
start-denylist clock default_days (cancelled ∷ signals) w row fresh m = m
start-denylist clock default_days (tick now ∷ signals) w row fresh m =
    start-denylist clock default_days signals (run_once clock default_days now w).1 row fresh.1
      (run_once-denylist clock now default_days w row fresh.0 m)

-- The goroutine of the scheduler, over any ticks and whatever statements fail, leaves every
-- revoked token on the denylist whose expiry, as a text, stands before none of the ticks.
pub start-is_denied :
    (clock : Clock) (default_days : ℤ) (signals : List Signal) (w : World) (jti expires_at : Str)
    → Member (jti, expires_at) w.db.jwt_denylist
    → Unexpired clock expires_at signals
    → is_denied jti (start clock default_days signals w).1.db ≡ true
unfolding is_denied
start-is_denied clock default_days signals w jti expires_at m fresh =
    any_of_Member (λ (row : Str × Str). str_eq row.0 jti) (jti, expires_at) _
      (start-denylist clock default_days signals w (jti, expires_at) fresh m) (str_eq_refl jti)
