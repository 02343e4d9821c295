-- ===== src/Db/Keeping.antt =====
-- Invariants of the tables: a handler keeps one if each of its statements does, whichever of them
-- fail. There is one rule for each way to build a handler.
use ooblivion.Shared.{◌≡◌, refl, Bool, true, false, Option, none, some, if◌then◌else◌}
use ooblivion.Exec.{
  Result, ok, err, Exec, pure, raise, gets, modify, continue, ◌>>=◌, ◌>>◌, or_else, try, ignore,
}
use ooblivion.Db.{
  Tables, World, exec, query, query_row, rows_err, answered, faulty, done, found, driver,
}

-- `m` keeps `P`, whether it returns or stops early.
pub record Keeps {E A : Type 0} (P : Tables → Type 0) (m : Exec World E A) : Type 0 where
  pub at : (w : World) → P w.db → P (m w).1.db

module _ {E A : Type 0} {P : Tables → Type 0} where
  pub Keeps-pure : (a : A) → Keeps P (pure {S = World} {E = E} a)
  Keeps-pure a = record { at = λ s h. h }

  pub Keeps-raise : (e : E) → Keeps P (raise {S = World} {E = E} {A = A} e)
  Keeps-raise e = record { at = λ s h. h }

  pub Keeps-gets : (f : World → A) → Keeps P (gets {S = World} {E = E} f)
  Keeps-gets f = record { at = λ s h. h }

  pub Keeps-if :
      (b : Bool) (m n : Exec World E A) → Keeps P m → Keeps P n → Keeps P (if b then m else n)
  Keeps-if true m n km kn = km
  Keeps-if false m n km kn = kn

module _ {E : Type 0} {P : Tables → Type 0} where
  pub Keeps-modify :
      (f : World → World)
      → ((w : World) → P w.db → P (f w).db)
      → Keeps P (modify {S = World} {E = E} f)
  Keeps-modify f k = record { at = k }

module _ {E A B : Type 0} {P : Tables → Type 0} where
  continued :
      (f : A → Exec World E B) (r : Result E A) (s : World)
      → ((a : A) → Keeps P (f a))
      → P s.db
      → P (continue r f s).1.db
  continued f (ok a) s k h = (k a).at s h
  continued f (err e) s k h = h

  pub Keeps-bind :
      (m : Exec World E A) (f : A → Exec World E B)
      → Keeps P m
      → ((a : A) → Keeps P (f a))
      → Keeps P (m >>= f)
  Keeps-bind m f km kf = record { at = λ s h. continued f (m s).0 (m s).1 kf (km.at s h) }

  pub Keeps-then :
      (m : Exec World E A) (n : Exec World E B) → Keeps P m → Keeps P n → Keeps P (m >> n)
  Keeps-then m n km kn = Keeps-bind m (λ _. n) km (λ _. kn)

module _ {E F A : Type 0} {P : Tables → Type 0} where
  pub Keeps-or_else : (f : E → F) (m : Exec World E A) → Keeps P m → Keeps P (or_else f m)
  Keeps-or_else f m km = record { at = λ s h. km.at s h }

  pub Keeps-try : (m : Exec World E A) → Keeps P m → Keeps P (try {F = F} m)
  Keeps-try m km = record { at = λ s h. km.at s h }

  pub Keeps-ignore : (m : Exec World E A) → Keeps P m → Keeps P (ignore {F = F} m)
  Keeps-ignore m km = record { at = λ s h. km.at s h }

-- A statement that succeeds keeps the predicate.
pub record Allows {A : Type 0} (P : Tables → Type 0) (statement : Tables → Option (A × Tables))
    : Type 0 where
  pub then_holds : (t t' : Tables) (a : A) → statement t ≡ some (a, t') → P t → P t'

abbrev chosen : {A E : Type 0} → Bool → Result E A × World → Result E A × World → Result E A × World
chosen b x y = if b then x else y

module _ {A : Type 0} {P : Tables → Type 0} where
  done_lem :
      (statement : Tables → Option (A × Tables))
      → Allows P statement
      → (o : Option (A × Tables)) (w : World) (t : Tables) → statement t ≡ o
      → P t
      → P w.db
      → P (done w o).1.db
  done_lem statement k none w t e h kept = kept
  done_lem statement k (some (a, t')) w t e h kept = k.then_holds t t' a e h

  ran :
      (statement : Tables → Option (A × Tables))
      → Allows P statement
      → (b : Bool) (w : World) → P w.db
      → P (chosen b (err driver, answered w) (done (answered w) (statement w.db))).1.db
  unfolding answered
  ran statement k true w h = h
  ran statement k false w h = done_lem statement k (statement w.db) (answered w) w.db refl h h

  -- Whether the statement fails, is refused or succeeds.
  pub Keeps-exec :
      (statement : Tables → Option (A × Tables)) → Allows P statement → Keeps P (exec statement)
  unfolding exec
  Keeps-exec statement k = record { at = λ w h. ran statement k (faulty w.faults) w h }

  pub Keeps-query : (select : Tables → A) → Keeps P (query select)
  unfolding query answered
  Keeps-query select = record { at = λ w h. asked (faulty w.faults) w h }
    where
      asked :
          (b : Bool) (w : World)
          → P w.db
          → P (chosen b (err driver, answered w) (ok (select w.db), answered w)).1.db
      asked true w h = h
      asked false w h = h

  pub Keeps-query_row : (select : Tables → Option A) → Keeps P (query_row select)
  unfolding query_row answered
  Keeps-query_row select = record { at = λ w h. asked (faulty w.faults) (select w.db) w h }
    where
      asked :
          (b : Bool) (o : Option A) (w : World)
          → P w.db
          → P (chosen b (err driver, answered w) (found (answered w) o)).1.db
      asked true o w h = h
      asked false none w h = h
      asked false (some a) w h = h

module _ {P : Tables → Type 0} where
  pub Keeps-rows_err : Keeps P rows_err
  unfolding rows_err answered
  Keeps-rows_err = record { at = λ w h. asked (faulty w.faults) w h }
    where
      asked :
          (b : Bool) (w : World)
          → P w.db
          → P (chosen b (err driver, answered w) (ok tt, answered w)).1.db
      asked true w h = h
      asked false w h = h

pub ruleset statement_rules = (
  Keeps-pure, Keeps-raise, Keeps-gets, Keeps-if, Keeps-bind, Keeps-then, Keeps-or_else, Keeps-try,
  Keeps-ignore, Keeps-exec, Keeps-query, Keeps-query_row, Keeps-rows_err,
)
