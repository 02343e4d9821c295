-- ===== src/Scheduler/Retention.antt =====
-- What a call of Flush of internal/scheduler/scheduler.go as a whole leaves of the captured
-- requests: the manual flush, the automatic one, and both under faults of the database.
use ooblivion.Shared.{
  ℕ, suc, ◌+◌, ◌*◌, ◌-◌, ◌≤◌, ℤ, pos, negsuc, Str, codes, str_eq, str_lt, atoi, Bool, true, false,
  not, [], ◌∷◌, ◌≡◌, ◌≢◌, ◌⊎◌, inl, inr, refl, ap, arith, filter, Member, Bool-cases, if◌then◌else◌,
}
use ooblivion.Shared.Select.{filter-filter, Member-filter}
use ooblivion.Shared.Wrap.{wrap64_negative}
use ooblivion.Exec.{Result, ok, err}
use ooblivion.Models.{Request}
use ooblivion.Db.{Tables, World, Error, constraint, faulty, answered, query_row}
use ooblivion.Scheduler.Settings.{setting, read_setting, read_value, read_setting-eq}
use ooblivion.Capture.Saving.{healthy}
use ooblivion.Capture.Alerts.{value_or_empty}
use ooblivion.Scheduler.{
  Clock, day_ns, unsaved, unsaved_before, retention_offset, flush_manual, flush_expired, flush_auto,
  auto_flush_enabled, retention_days, positive_or, flush,
}
use ooblivion.Scheduler.Flushing.{count, flushed, remaining, flush_rows-healthy, flush_rows_keeps}

abbrev pub finished : World → World
finished w = record w { faults = []; flushing = false }

module _ (clock : Clock) (default_days : ℤ) (ip : Str) (now : ℕ) (w : World) where
  -- A manual flush without faults deletes exactly the requests that are not saved, with the log
  -- rows that refer to them, and returns their number; it writes the time of the flush and one
  -- audit entry, and releases the lock.
  pub flush_manual_lem :
      w.flushing ≡ false
      → flush clock default_days true ip now (healthy w) ≡ (
        ok (count clock (codes "flush_manual") ip now unsaved w),
        finished (flushed clock (codes "flush_manual") ip now unsaved w),
      )
  unfolding flush flush_manual
  flush_manual_lem free = ground (
    arith,
    flush_rows-healthy clock (codes "flush_manual") ip now unsaved (record w { flushing = true }),
  )

  -- The retention window in days: the setting, if it is a positive number, and the default if not.
  abbrev pub window : ℤ
  window =
      positive_or default_days
        (atoi (value_or_empty (setting (codes "retention_days") w.db.settings)))

  abbrev pub boundary : ℤ → Str
  boundary days = clock.stamp_add now (retention_offset days)

  abbrev pub switched_off : Bool
  switched_off =
      str_eq (value_or_empty (setting (codes "auto_flush_enabled") w.db.settings)) (codes "0")

  -- An automatic flush without faults does nothing if it is switched off, and otherwise deletes
  -- exactly the requests that are not saved and were created before the retention window.
  pub flush_auto_lem :
      w.flushing ≡ false
      → flush clock default_days false ip now (healthy w) ≡ (
          if switched_off then (ok 0, finished w) else (
            ok (count clock (codes "flush_auto") ip now (unsaved_before (boundary window)) w),
            finished
                (flushed clock (codes "flush_auto") ip now (unsaved_before (boundary window)) w),
          ))
  unfolding flush flush_auto flush_expired auto_flush_enabled retention_days read_setting query_row
      faulty answered
  flush_auto_lem free = ground (
    arith,
    flush_rows-healthy clock (codes "flush_auto") ip now (unsaved_before (boundary window))
        (record w { flushing = true }),
  )

  -- Where the first statement of an automatic flush fails, which reads the switch, the flush
  -- deletes as if it were switched on, also if it is switched off.
  pub flush_auto_fault :
      w.flushing ≡ false
      → flush clock default_days false ip now (record w { faults = true ∷ [] }) ≡ (
        ok (count clock (codes "flush_auto") ip now (unsaved_before (boundary window)) w),
        finished (flushed clock (codes "flush_auto") ip now (unsaved_before (boundary window)) w),
      )
  unfolding flush flush_auto flush_expired auto_flush_enabled retention_days read_setting query_row
      faulty answered str_eq
  flush_auto_fault free = ground (
    arith,
    flush_rows-healthy clock (codes "flush_auto") ip now (unsaved_before (boundary window))
        (record w { flushing = true }),
  )

-- The rows of a table that are left when some of the selected ones, all or none, have gone.
abbrev LeftBy : (Request → Bool) → Tables → Result Error ℕ × World → Type 0
LeftBy selected t (r, v) =
    ((v.db.requests ≡ t.requests) ⊎ (v.db.requests ≡ remaining selected t)) × (r ≢ err constraint)

module _ (clock : Clock) (default_days : ℤ) (ip : Str) (now : ℕ) (w : World) where
  -- The worlds between the statements that read the settings.
  abbrev locked : World
  locked = record w { flushing = true }

  abbrev days_read : ℤ
  days_read =
      positive_or default_days (atoi (read_value (codes "retention_days") (answered locked)))

  abbrev selected : Bool → Request → Bool
  selected true = unsaved
  selected false = unsaved_before (clock.stamp_add now (retention_offset days_read))

  flush_expired-LeftBy :
      LeftBy (selected false) w.db (flush_expired clock default_days ip now (answered locked))
  unfolding flush_expired retention_days
  flush_expired-LeftBy =
      rw (flush_expired, retention_days, read_setting-eq)
        (unfold answered in
          flush_rows_keeps clock (codes "flush_auto") ip now (selected false)
            (answered (answered locked)))

  flush_auto-LeftBy : LeftBy (selected false) w.db (flush_auto clock default_days ip now locked)
  unfolding flush_auto auto_flush_enabled
  flush_auto-LeftBy =
      rw (flush_auto, auto_flush_enabled, read_setting-eq)
        (elim (Bool-cases (str_eq (read_value (codes "auto_flush_enabled") locked) (codes "0"))) [
          | inl off ↦ rw off (unfold answered in (inl refl, λ e. cc))
          | inr on ↦ rw on flush_expired-LeftBy
        ])

  flush-LeftBy :
      (manual : Bool) → LeftBy (selected manual) w.db (flush clock default_days manual ip now w)
  unfolding flush flush_manual
  flush-LeftBy true =
      ground (arith, flush_rows_keeps clock (codes "flush_manual") ip now unsaved locked)
  flush-LeftBy false = ground (arith, flush_auto-LeftBy)

  -- A flush of either kind, whatever statements of it fail, leaves every saved request as it was,
  -- and is never stopped by a foreign key.
  pub flush-saved :
      (manual : Bool)
      → let out = flush clock default_days manual ip now w in
        (filter (λ (r : Request). r.saved) out.1.db.requests
          ≡ filter (λ (r : Request). r.saved) w.db.requests)
        × (out.0 ≢ err constraint)
  flush-saved manual = ground (
    arith,
    flush-LeftBy manual,
    filter-filter (λ (r : Request). r.saved) (λ r. not (selected manual r)) w.db.requests
        (λ r s. saved_ne_selected manual r s),
  )
    where
      saved_ne_selected : (m : Bool) (r : Request) → r.saved ≡ true → not (selected m r) ≡ true
      saved_ne_selected true r s = ground arith
      saved_ne_selected false r s = ground arith

-- How package time orders instants: the text of an instant that is not before another does not
-- stand before the text of that other (RFC 3339 in UTC, for the years from 0 to 9999).
pub record IsOrdered (clock : Clock) : Type 0 where
  pub late :
      (now t d : ℕ)
      → now ≤ t + suc d
      → str_lt (clock.stamp t) (clock.stamp_add now (negsuc d)) ≡ false

pub retention_offset_lem :
    (d : ℕ) → d ≤ 106750 → retention_offset (pos (suc d)) ≡ negsuc (suc d * day_ns - 1)
unfolding retention_offset
retention_offset_lem d h = wrap64_negative (suc d * day_ns - 1) (omega arith)

read_value-healthy :
    (key : Str) (w : World)
    → w.faults ≡ []
    → read_value key w ≡ value_or_empty (setting key w.db.settings)
unfolding read_value query_row faulty
read_value-healthy key w h = ground arith

Member-LeftBy :
    (selected : Request → Bool) (t : Tables) (out : Result Error ℕ × World) (r : Request)
    → LeftBy selected t out
    → Member r t.requests
    → selected r ≡ false
    → Member r out.1.db.requests
Member-LeftBy selected t (res, v) r (inl same, _) m k = rw same m
Member-LeftBy selected t (res, v) r (inr left, _) m k =
    rw left (Member-filter (λ x. not (selected x)) r t.requests m (ground arith))

days_read-healthy :
    (clock : Clock) (default_days : ℤ) (ip : Str) (now : ℕ) (w : World)
    → days_read clock default_days ip now (healthy w) ≡ window clock default_days ip now w
unfolding answered
days_read-healthy clock default_days ip now w =
    ap (λ s. positive_or default_days (atoi s))
      (read_value-healthy (codes "retention_days") (record w { faults = []; flushing = true }) refl)

-- With a retention window of at most 106751 days, an automatic flush without faults keeps every
-- request created within the window, saved or not.
pub flush_auto-recent :
    (clock : Clock) (ordered : IsOrdered clock) (default_days : ℤ) (ip : Str) (now : ℕ) (w : World)
    (d t : ℕ) (r : Request)
    → window clock default_days ip now w ≡ pos (suc d)
    → d ≤ 106750
    → Member r w.db.requests
    → r.created_at ≡ clock.stamp t
    → now ≤ t + suc d * day_ns
    → Member r (flush clock default_days false ip now (healthy w)).1.db.requests
flush_auto-recent clock ordered default_days ip now w d t r e small m at_t recent =
    Member-LeftBy (selected clock default_days ip now (healthy w) false) w.db
      (flush clock default_days false ip now (healthy w)) r
      (flush-LeftBy clock default_days ip now (healthy w) false) m
      (rw (days_read-healthy clock default_days ip now w, e, retention_offset_lem d small, at_t)
        (ground (arith, ordered.late now t (suc d * day_ns - 1))))
