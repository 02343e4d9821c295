-- ===== src/Scheduler/Settings.antt =====
-- readSetting and writeSetting of internal/scheduler/scheduler.go.
use ooblivion.Shared.{
  ◌≡◌, refl, Str, str_eq, str_eq_iff, arith, Option, none, some, List, [], ◌∷◌, if◌then◌else◌,
}
use ooblivion.Exec.{Result, ok, err, Exec}
use ooblivion.Db.{Tables, World, Error, exec, query_row, answered}

-- SELECT value FROM settings WHERE key = ?
unfoldable pub setting : Str → List (Str × Str) → Option Str
setting key [] = none
setting key ((k, v) ∷ settings) = if str_eq k key then some v else setting key settings

-- INSERT ... ON CONFLICT(key) DO UPDATE SET value = excluded.value
unfoldable pub put_setting : Str → Str → List (Str × Str) → List (Str × Str)
put_setting key value [] = (key, value) ∷ []
put_setting key value ((k, v) ∷ settings) =
    if str_eq k key then (k, value) ∷ settings else (k, v) ∷ put_setting key value settings

abbrev or_empty : Result Error Str → Str
or_empty (ok value) = value
or_empty (err e) = []

-- ReadSetting: a missing key and a failed query both give the empty string
module _ {E : Type 0} where
  -- ReadSetting: a missing key and a failed query both give the empty string
  unfoldable pub read_setting : Str → Exec World E Str
  read_setting key w =
      let (r, w') = query_row (λ (t : Tables). setting key t.settings) w in (ok (or_empty r), w')

-- WriteSetting
unfoldable pub write_setting : Str → Str → Exec World Error (Unit {0})
write_setting key value =
    exec (λ t. some (tt, record t { settings = put_setting key value t.settings }))

pub setting-put_setting :
    (key value k : Str) (settings : List (Str × Str))
    → setting k (put_setting key value settings)
      ≡ (if str_eq key k then some value else setting k settings)
unfolding setting put_setting
setting-put_setting key value k [] = refl
setting-put_setting key value k ((j, v) ∷ settings) = ground (
  arith,
  str_eq_iff key k,
  str_eq_iff j k,
  str_eq_iff j key,
  setting-put_setting key value k settings,
)

-- What a read of a setting gives in a world, faults included.
unfoldable pub read_value : Str → World → Str
unfolding query_row
read_value key w = or_empty (query_row (λ (t : Tables). setting key t.settings) w).0

pub read_setting-eq :
    {E : Type 0} (key : Str) (w : World)
    → read_setting {E = E} key w ≡ (ok (read_value key w), answered w)
unfolding read_setting read_value query_row
read_setting-eq key w = ground arith
