-- ===== src/Interleaving/Flushes/Ending.antt =====
-- One call of Flush of internal/scheduler/scheduler.go from its start to its end: its steps against
-- the function `flush`.
use ooblivion.Shared.{
  ℕ, zero, suc, ℤ, Str, Bool, true, false, Bool-cases, inl, inr, List, [], ◌∷◌, ◌≡◌, ◌∙◌, ap, sym,
  fun_ext, ◌<◌, refl, arith, length, if◌then◌else◌,
}
use ooblivion.Exec
use ooblivion.Exec.{Result, ok, err, Exec}
use ooblivion.Db.{World, Error}
use ooblivion.Models.{Request}
use ooblivion.Scheduler.{
  Clock, flush, flush_manual, flush_auto, flush_expired, flush_rows, auto_flush_enabled,
}
use ooblivion.Interleaving.{
  Thread, finished, step, resumed, run, Ends, Ends-if, Ends-resumed, run-if, run-step,
}
use ooblivion.Interleaving.Flushes.{
  Call, delete_steps, expiring, flushing_thread, Flusher, waiting, inside, gone, enter, advance,
  among,
}

-- so many steps with nothing in between
unfoldable pub alone : ℕ → List (World → World)
alone zero = []
alone (suc n) = (λ w. w) ∷ alone n

module _ (clock : Clock) (default_days : ℤ) where
  delete_steps-Ends :
      (n : ℕ) (action : Str) (call : Call) (selected : Request → Bool)
      → Ends (suc (suc (suc (suc (suc n))))) (delete_steps clock action call selected)
  unfolding delete_steps
  delete_steps-Ends zero action call selected = λ _ _ _ _ _. tt
  delete_steps-Ends (suc n) action call selected = λ _ _ _ _ _. tt

  flushing_thread-Ends : (call : Call) → Ends 7 (flushing_thread clock default_days call)
  unfolding flushing_thread expiring
  flushing_thread-Ends call =
      Ends-if 7 call.manual _ _ (delete_steps-Ends 2 _ call _)
        (λ enabled. Ends-if 6 enabled _ _ (λ days. delete_steps-Ends 0 _ call _) tt)

  run-expiring :
      (call : Call)
      → run (expiring clock default_days call) ≡ flush_expired clock default_days call.ip call.now
  unfolding run delete_steps expiring flush_expired flush_rows
  run-expiring call = refl

  run_auto :
      (call : Call)
      → run (
          step
            (auto_flush_enabled {E = Error})
            (λ enabled. if enabled then expiring clock default_days call else finished (ok 0)))
        ≡ flush_auto clock default_days call.ip call.now
  unfolding run delete_steps expiring flush_auto flush_expired flush_rows
  run_auto call =
      ap (λ f. Exec.◌>>=◌ (auto_flush_enabled {E = Error}) f) (fun_ext (λ b. run-if b _ _))

  -- With nothing in between, the steps do what Flush does with the lock.
  run-flushing_thread :
      (call : Call)
      → run (flushing_thread clock default_days call) ≡ (
          if call.manual
          then flush_manual clock call.ip call.now
          else flush_auto clock default_days call.ip call.now)
  unfolding run flushing_thread delete_steps flush_manual flush_rows
  run-flushing_thread call =
      run-if call.manual _ _
      ∙ ap (λ auto. if call.manual then flush_manual clock call.ip call.now else auto)
          (run_auto call)

  -- a call that has gone stays as it is
  among-gone :
      (gs : List (World → World)) (r : Result Error ℕ) (w : World)
      → (among clock default_days gs (gone r) w).0 ≡ gone r
  unfolding among advance
  among-gone [] r w = refl
  among-gone (g ∷ gs) r w = among-gone gs r (g w)

  -- A call that is inside ends, whatever happens between its steps.
  among-inside :
      (n : ℕ) (t : Thread Error ℕ) (gs : List (World → World)) (w : World)
      → Ends n t
      → n < length gs
      → (r : Result Error ℕ) × ((among clock default_days gs (inside t) w).0 ≡ gone r)
  unfolding among advance
  among-inside n t [] w ends enough = absurd (omega arith)
  among-inside n (finished r) (g ∷ gs) w ends enough = (r, among-gone gs r _)
  among-inside zero (step m k) (g ∷ gs) w ends enough = absurd ends
  among-inside (suc n) (step m k) (g ∷ gs) w ends enough =
      among-inside n (resumed k (m (g w)).0) gs (m (g w)).1 (Ends-resumed n k (m (g w)).0 ends)
        (omega (arith, enough))

  enter_held :
      (call : Call) (w : World)
      → w.flushing ≡ true
      → enter clock default_days call w ≡ (gone (ok 0), w)
  unfolding enter
  enter_held call w held = rw held refl

  pub enter_free :
      (call : Call) (w : World)
      → w.flushing ≡ false
      → enter clock default_days call w
        ≡ (inside (flushing_thread clock default_days call), record w { flushing = true })
  unfolding enter
  enter_free call w free = rw free refl

  -- Whatever other goroutines do before each of its steps, a call of Flush has gone after nine
  -- steps, with a result.
  pub among_ends :
      (call : Call) (gs : List (World → World)) (w : World)
      → 8 < length gs
      → (r : Result Error ℕ) × ((among clock default_days gs (waiting call) w).0 ≡ gone r)
  unfolding among advance
  among_ends call [] w enough = absurd (omega arith)
  among_ends call (g ∷ gs) w enough = elim (Bool-cases (g w).flushing) [
    | inl held ↦ (
      ok 0,
      ap (λ p. (among clock default_days gs p.0 p.1).0) (enter_held call (g w) held)
          ∙ among-gone gs (ok 0) (g w),
    )
    | inr free ↦
        let (r, e) =
          among-inside 7 (flushing_thread clock default_days call) gs
            (record (g w) { flushing = true }) (flushing_thread-Ends call)
            (omega (arith, enough)) in
        (r, ap (λ p. (among clock default_days gs p.0 p.1).0) (enter_free call (g w) free) ∙ e)
  ]

  alone-gone :
      (n : ℕ) (r : Result Error ℕ) (w : World)
      → among clock default_days (alone n) (gone r) w ≡ (gone r, w)
  unfolding alone among advance
  alone-gone zero r w = refl
  alone-gone (suc n) r w = alone-gone n r w

  abbrev ended : Result Error ℕ × World → Flusher × World
  ended (r, w) = (gone r, record w { flushing = false })

  alone-inside :
      (n : ℕ) (t : Thread Error ℕ) (w : World)
      → Ends n t
      → among clock default_days (alone (suc n)) (inside t) w ≡ ended (run t w)
  unfolding alone among advance run
  alone-inside n (finished r) w ends = alone-gone n r _
  alone-inside zero (step m k) w ends = absurd ends
  alone-inside (suc n) (step m k) w ends =
      alone-inside n (resumed k (m w).0) (m w).1 (Ends-resumed n k (m w).0 ends)
      ∙ ap ended (sym (run-step m k w))

  flush_held :
      (call : Call) (w : World)
      → w.flushing ≡ true
      → (ok 0, w) ≡ flush clock default_days call.manual call.ip call.now w
  unfolding flush
  flush_held call w held = rw held refl

  flush_free :
      (call : Call) (w : World)
      → w.flushing ≡ false
      → ended (run (flushing_thread clock default_days call) (record w { flushing = true }))
        ≡ (let out = flush clock default_days call.manual call.ip call.now w in (gone out.0, out.1))
  unfolding flush
  flush_free call w free = rw (free, run-flushing_thread call) refl

  -- With nothing in between, nine steps of a call do what the function `flush` does.
  among-alone :
      (call : Call) (w : World)
      → among clock default_days (alone 9) (waiting call) w
        ≡ (let out = flush clock default_days call.manual call.ip call.now w in (gone out.0, out.1))
  unfolding among advance alone
  among-alone call w = elim (Bool-cases w.flushing) [
    | inl held ↦
        ap (λ p. among clock default_days (alone 8) p.0 p.1) (enter_held call w held)
        ∙ alone-gone 8 (ok 0) w
        ∙ ap (λ out. (gone out.0, out.1)) (flush_held call w held)
    | inr free ↦
        ap (λ p. among clock default_days (alone 8) p.0 p.1) (enter_free call w free)
        ∙ alone-inside 7 (flushing_thread clock default_days call) (record w { flushing = true })
            (flushing_thread-Ends call)
        ∙ flush_free call w free
  ]
