-- ===== src/Admin/Keeping.antt =====
-- Parts of the handlers of internal/admin that write nothing keep every invariant of the tables.
pub mod Sessions
pub mod Viewing
use ooblivion.Shared.{ℕ, ℤ, Str, atoi, Bool, true, false}
use ooblivion.Exec.{Result, ok, err, Exec, pure, ◌>>=◌}
use ooblivion.Db.{Tables, World, Error}
use ooblivion.Db.Keeping.{Keeps, Keeps-query_row, statement_rules}
use ooblivion.Scheduler.{retention_days}
use ooblivion.Scheduler.Settings.{setting, read_setting}
use ooblivion.Admin.{Reply, parsed_id, path_id}

module _ {P : Tables → Type 0} where
  pub Keeps-path_id : (text : Str) → Keeps P (path_id text)
  unfolding path_id
  Keeps-path_id text = record { at = λ w h. kept (atoi text) w h }
    where
      kept : (p : ℤ × Bool) (w : World) → P w.db → P (parsed_id p w).1.db
      kept (id, true) w h = h
      kept (id, false) w h = h

  pub Keeps-read_setting : {E : Type 0} (key : Str) → Keeps P (read_setting {E = E} key)
  unfolding read_setting
  Keeps-read_setting key = record {
    at = λ w h. (Keeps-query_row {P = P} (λ (t : Tables). setting key t.settings)).at w h;
  }

  pub Keeps-retention_days :
      {E : Type 0} (default_days : ℤ) → Keeps P (retention_days {E = E} default_days)
  unfolding retention_days
  Keeps-retention_days default_days = search (statement_rules, Keeps-read_setting) depth 8

pub ruleset read_rules = (statement_rules, Keeps-path_id, Keeps-read_setting, Keeps-retention_days)
