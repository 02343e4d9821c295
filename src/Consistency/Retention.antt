-- ===== src/Consistency/Retention.antt =====
-- The retention that the scheduler reads in a run of the program: internal/scheduler/scheduler.go.
use ooblivion.Shared.{
  ℕ, zero, suc, ◌*◌, ◌-◌, ◌≤◌, ◌≡◌, refl, subst, sym, arith, ℤ, pos, negsuc, Str, codes, atoi, Bool,
  true, false, Option, none, some, List, [], ◌∷◌, All, if◌then◌else◌,
}
use ooblivion.Exec.{ok}
use ooblivion.Db.{World, Error, query_row, faulty}
use ooblivion.Scheduler.{retention_days, retention_offset, positive_or, day_ns}
use ooblivion.Scheduler.Retention.{retention_offset_lem}
use ooblivion.Scheduler.Settings.{setting, read_value, read_setting-eq}
use ooblivion.Admin.Settings.{in_range}
use ooblivion.Consistency.{IsConsistent, IsSetting}
use ooblivion.Consistency.Runs.{Reach-IsSound}
use ooblivion.Program.{Program, up, Reach}

-- A number of days whose length in nanoseconds is below the bound of int64.
abbrev pub IsRetention : ℤ → Type 0
IsRetention (pos n) = (1 ≤ n) × (n ≤ 3650) × (retention_offset (pos n) ≡ negsuc (n * day_ns - 1))
IsRetention (negsuc n) = ⊥

short-IsRetention : (n : ℕ) → 1 ≤ n → n ≤ 3650 → IsRetention (pos n)
short-IsRetention zero h k = absurd (omega (arith, h))
short-IsRetention (suc n) h k = (h, k, retention_offset_lem n (omega (arith, k)))

default-IsRetention : IsRetention (pos 30)
default-IsRetention = short-IsRetention 30 (omega arith) (omega arith)

abbrev or_empty_option : Option Str → Str
or_empty_option none = []
or_empty_option (some value) = value

positive_or-IsRetention :
    (z : ℤ × Bool) → in_range (some z.0) ≡ true → IsRetention (positive_or (pos 30) z)
positive_or-IsRetention (pos zero, true) h = default-IsRetention
positive_or-IsRetention (pos (suc n), true) h =
    short-IsRetention (suc n) (omega arith) (ground (arith, h))
positive_or-IsRetention (negsuc n, true) h = default-IsRetention
positive_or-IsRetention (pos n, false) h = default-IsRetention
positive_or-IsRetention (negsuc n, false) h = default-IsRetention

setting-in_range :
    (settings : List (Str × Str)) (value : Str)
    → All IsSetting settings
    → setting (codes "retention_days") settings ≡ some value
    → in_range (some (atoi value).0) ≡ true
unfolding setting
setting-in_range [] value h e = ground (arith, e)
setting-in_range ((k, v) ∷ settings) value h e =
    ground (arith, h.0, e, setting-in_range settings value h.1)

-- What a read gives, whether it fails, finds no row or finds one.
found_value :
    (failing : Bool) (o : Option Str)
    → ((value : Str) → o ≡ some value → in_range (some (atoi value).0) ≡ true)
    → IsRetention (positive_or (pos 30) (atoi (if failing then [] else or_empty_option o)))
unfolding atoi
found_value true o h = default-IsRetention
found_value false none h = default-IsRetention
found_value false (some value) h = positive_or-IsRetention (atoi value) (h value refl)

read_value-eq :
    (w : World)
    → read_value (codes "retention_days") w ≡ (
        if faulty w.faults
        then []
        else or_empty_option (setting (codes "retention_days") w.db.settings))
unfolding read_value query_row
read_value-eq w = ground arith

retention_days-eq :
    (w : World)
    → (retention_days {E = Error} (pos 30) w).0
      ≡ ok (positive_or (pos 30) (atoi (read_value (codes "retention_days") w)))
unfolding retention_days
retention_days-eq w = ground (arith, read_setting-eq {E = Error} (codes "retention_days") w)

-- In every running state that the program reaches, with any faults, the retention that the flush
-- reads is a number of days from 1 to 3650, whose length in nanoseconds does not overflow int64.
pub Reach-IsRetention :
    (p : Program) (w : World) (faults : List Bool)
    → Reach p (up w)
    → (days : ℤ) × ((retention_days {E = Error} (pos 30) (record w { faults = faults })).0
        ≡ ok days)
      × IsRetention days
Reach-IsRetention p w faults reach =
    let sound : IsConsistent p.site.rules w.db = Reach-IsSound p (up w) reach in
    let (r, s, x, l, a, settings) = sound in
    let at = record w { faults = faults } in
    (
      _,
      retention_days-eq at,
      subst (λ (text : Str). IsRetention (positive_or (pos 30) (atoi text)))
          (sym (read_value-eq at))
          (found_value (faulty faults) _
            (λ value found. setting-in_range w.db.settings value settings found)),
    )
