-- ===== src/Program/Credentials.antt =====
-- After main of cmd/ooblivion/main.go has set the first password, its first RunOnce and all later
-- ones leave the administrator's row in place.
use ooblivion.Shared.{◌≡◌, ◌≢◌, refl, arith, ℕ, ℤ, Str, codes, Bool, Option, none, pos}
use ooblivion.Exec.{Result, ok, err, Exec, modify, ignore, continue, ◌>>=◌, ◌>>◌}
use ooblivion.Models.{Request}
use ooblivion.Db.{Tables, World, exec, query_row, faulty, answered, delete_requests}
use ooblivion.Db.Audit.{insert_audit}
use ooblivion.Db.Keeping.{Keeps, Allows, Keeps-modify, Keeps-exec}
use ooblivion.Auth.Denylist.{denylist_prune, delete_expired}
use ooblivion.Auth.Passwords.{PasswordLib}
use ooblivion.Scheduler.{
  Clock, delete_logs, flush, flush_manual, flush_auto, flush_expired, flush_rows, retention_days,
  auto_flush_enabled, run_once, keep_last_logs, delete_old_audit,
}
use ooblivion.Scheduler.Settings.{write_setting, read_setting}
use ooblivion.Server.Setup.{SetupError, ensure_auth, set_password, insert_auth}
use ooblivion.Admin.Keeping.{read_rules}
use ooblivion.Consistency.Effects.{Keeps-flush_of}
use ooblivion.Program.{Program, boot}
use ooblivion.Consistency.Statements.{total, unguarded}

abbrev pub HasAdmin : Tables → Type 0
HasAdmin t = t.auth ≢ none

Allows-logs : (selected : Request → Bool) → Allows HasAdmin (delete_logs selected)
unfolding delete_logs
Allows-logs selected = total _ _ (λ t h. h)

Allows-rows : (selected : Request → Bool) → Allows HasAdmin (delete_requests selected)
unfolding delete_requests
Allows-rows selected = unguarded _ _ _ (λ t free h. h)

Allows-audit : (action detail ip at : Str) → Allows HasAdmin (insert_audit action detail ip at)
unfolding insert_audit
Allows-audit action detail ip at = total _ _ (λ t h. h)

Allows-expired : (now : Str) → Allows HasAdmin (delete_expired now)
unfolding delete_expired
Allows-expired now = total _ _ (λ t h. h)

Allows-last_logs : (n : ℕ) → Allows HasAdmin (keep_last_logs n)
unfolding keep_last_logs
Allows-last_logs n = total _ _ (λ t h. h)

Allows-old_audit : (boundary : Str) → Allows HasAdmin (delete_old_audit boundary)
unfolding delete_old_audit
Allows-old_audit boundary = total _ _ (λ t h. h)

Keeps-write : (key value : Str) → Keeps HasAdmin (write_setting key value)
unfolding write_setting
Keeps-write key value = Keeps-exec _ (total _ _ (λ t h. h))

Keeps-flushed :
    {E : Type 0} (text : Str)
    → Keeps HasAdmin (modify {S = World} {E = E} (λ w. record w { last_flush_at = text }))
Keeps-flushed text = Keeps-modify _ (λ w h. h)

ruleset admin_rules = (
  read_rules, Allows-logs, Allows-rows, Allows-audit, Allows-expired, Allows-last_logs,
  Allows-old_audit, Keeps-write, Keeps-flushed,
)

ensure_auth-HasAdmin :
    (lib : PasswordLib) (clock : Clock) (password : Str) (salt : Option Str) (now : ℕ) (w : World)
    → (ensure_auth lib clock password salt now w).0 ≡ ok tt
    → HasAdmin (ensure_auth lib clock password salt now w).1.db
unfolding ensure_auth set_password insert_auth exec query_row faulty answered
ensure_auth-HasAdmin lib clock password salt now w h = ground (arith, h)

Keeps-flush_rows :
    (clock : Clock) (action ip : Str) (now : ℕ) (selected : Request → Bool)
    → Keeps HasAdmin (flush_rows clock action ip now selected)
unfolding flush_rows
Keeps-flush_rows clock action ip now selected = search admin_rules depth 16

Keeps-flush :
    (clock : Clock) (default_days : ℤ) (manual : Bool) (ip : Str) (now : ℕ)
    → Keeps HasAdmin (flush clock default_days manual ip now)
unfolding flush_manual flush_auto flush_expired retention_days auto_flush_enabled
Keeps-flush clock default_days manual ip now =
    Keeps-flush_of clock default_days manual ip now
      (search (admin_rules, Keeps-flush_rows) depth 16)

pub run_once-HasAdmin :
    (clock : Clock) (default_days : ℤ) (now : ℕ) → Keeps HasAdmin (run_once clock default_days now)
unfolding run_once denylist_prune
run_once-HasAdmin clock default_days now = search (admin_rules, Keeps-flush) depth 16

module _ (p : Program) (salt : Option Str) (now : ℕ) where
  -- what follows ensureAuth
  abbrev starting : Exec World SetupError (Unit {0})
  starting = do
    last ← read_setting (codes "last_flush_at")
    modify (λ w. record w { last_flush_at = last })
    ignore (run_once p.site.console.clock (pos 30) now)

  starting-HasAdmin : Keeps HasAdmin starting
  starting-HasAdmin = search (admin_rules, run_once-HasAdmin) depth 16

  -- A start that succeeds leaves a row with the administrator's password.
  pub boot-HasAdmin :
      (w : World) → (boot p salt now w).0 ≡ ok tt → HasAdmin (boot p salt now w).1.db
  unfolding boot
  boot-HasAdmin w started =
      onward (setup w).0 (setup w).1
        (ensure_auth-HasAdmin p.site.console.passwords p.site.console.clock p.admin_password salt
          now w)
        started
    where
      setup : Exec World SetupError (Unit {0})
      setup = ensure_auth p.site.console.passwords p.site.console.clock p.admin_password salt now

      onward :
          (r : Result SetupError (Unit {0})) (v : World)
          → (r ≡ ok tt → HasAdmin v.db)
          → (continue r (λ _. starting) v).0 ≡ ok tt
          → HasAdmin (continue r (λ _. starting) v).1.db
      onward (ok tt) v has e = starting-HasAdmin.at v (has refl)
      onward (err f) v has e = ground (arith, e)
