-- ===== src/Db/Migrations.antt =====
-- migrate of internal/db/db.go: the scripts that are not applied yet, in the order of their names.
-- What a script does to the schema (SQLite) is a parameter; it is a state and how the script ends.
-- A fault of one of the program's own statements is a list of answers.
use ooblivion.Shared.{
  ◌≡◌, refl, arith, Str, str_eq, str_eq_refl, str_lt, Bool, Bool-cases, true, not, inl, inr, List,
  [], ◌∷◌, ◌++◌, All, any, order_by, if◌then◌else◌,
}
use ooblivion.Exec.{Result, ok, err, Exec, continue, pure, ◌>>=◌, ◌>>◌}
use ooblivion.Db.{faulty}

pub data MigrationError : Type 0 where
  statement : MigrationError
  script : Str → MigrationError

-- a script succeeds, fails at a column that is there already, or fails otherwise
pub data Outcome : Type 0 where
  finished duplicate_column failed : Outcome

-- the schema, the names in schema_migrations, and the faults to come
pub record Handle (S : Type 0) : Type 0 where
  pub schema : S
  pub applied : List Str
  pub faults : List Bool

abbrev rest : List Bool → List Bool
rest [] = []
rest (b ∷ bs) = bs

any-end :
    (name other : Str) (rows : List Str)
    → any (str_eq name) rows ≡ true
    → any (str_eq name) (rows ++ other ∷ []) ≡ true
unfolding any
any-end name other [] h = ground (arith, h)
any-end name other (row ∷ rows) h = ground (arith, h, any-end name other rows)

any-last : (name : Str) (rows : List Str) → any (str_eq name) (rows ++ name ∷ []) ≡ true
unfolding any
any-last name [] = ground (arith, str_eq_refl name)
any-last name (row ∷ rows) = ground (arith, any-last name rows)

module _ {S : Type 0} where
  -- one of the program's own statements
  abbrev pub statement_or :
      {A : Type 0} → (Handle S → A × Handle S) → Exec (Handle S) MigrationError A
  statement_or f h =
      let next = record h { faults = rest h.faults } in
      if faulty h.faults then (err statement, next) else (let (a, h') = f next in (ok a, h'))

  -- SELECT COUNT(*) FROM schema_migrations WHERE name = ?
  unfoldable pub is_applied : Str → Exec (Handle S) MigrationError Bool
  is_applied name = statement_or (λ h. (any (str_eq name) h.applied, h))

  -- INSERT INTO schema_migrations
  unfoldable pub mark_applied : Str → Exec (Handle S) MigrationError (Unit {0})
  mark_applied name = statement_or (λ h. (tt, record h { applied = h.applied ++ name ∷ [] }))

  -- A handle without faults to come.
  abbrev pub unfailing : Handle S → Handle S
  unfailing h = record h { faults = [] }

  module _ (execute : Str → S → Outcome × S) where
    abbrev ended : Str → Outcome → Handle S → Result MigrationError (Unit {0}) × Handle S
    ended name finished h = (ok tt, h)
    ended name duplicate_column h = (ok tt, h)
    ended name failed h = (err (script name), h)

    unfoldable pub run_script : Str → Exec (Handle S) MigrationError (Unit {0})
    run_script name h =
        let (outcome, schema) = execute name h.schema in
        ended name outcome (record h { schema = schema })

    -- one round of the loop
    unfoldable pub apply_one : Str → Exec (Handle S) MigrationError (Unit {0})
    unfolding is_applied run_script mark_applied
    apply_one name = do
      applied ← is_applied name
      if applied then pure tt else (do run_script name; mark_applied name)

    unfoldable pub apply_all : List Str → Exec (Handle S) MigrationError (Unit {0})
    unfolding apply_one
    apply_all [] = pure tt
    apply_all (name ∷ names) = do apply_one name; apply_all names

    -- migrate, with the names of the embedded scripts
    unfoldable pub migrate : List Str → Exec (Handle S) MigrationError (Unit {0})
    unfolding apply_all
    migrate names = do
      statement_or (λ h. (tt, h))
      apply_all (order_by (λ a b. not (str_lt b a)) names)

    abbrev pub IsApplied : Handle S → Str → Type 0
    IsApplied h name = any (str_eq name) h.applied ≡ true

    apply_one-IsApplied :
        (name : Str) (h : Handle S)
        → (apply_one name h).0 ≡ ok tt
        → IsApplied (apply_one name h).1 name
    unfolding apply_one is_applied run_script mark_applied
    apply_one-IsApplied name h e = ground (arith, e, any-last name h.applied)

    apply_one-kept :
        (name other : Str) (h : Handle S) → IsApplied h other → IsApplied (apply_one name h).1 other
    unfolding apply_one is_applied run_script mark_applied
    apply_one-kept name other h k = ground (arith, k, any-end other name h.applied k)

    apply_all-kept :
        (names : List Str) (other : Str) (h : Handle S)
        → IsApplied h other
        → IsApplied (apply_all names h).1 other
    unfolding apply_all
    apply_all-kept [] other h k = k
    apply_all-kept (name ∷ names) other h k =
        onward (apply_one name h).0 (apply_one name h).1 (apply_one-kept name other h k)
          (λ v. apply_all-kept names other v)
      where
        onward :
            (r : Result MigrationError (Unit {0})) (v : Handle S)
            → IsApplied v other
            → ((u : Handle S) → IsApplied u other → IsApplied (apply_all names u).1 other)
            → IsApplied (continue r (λ _. apply_all names) v).1 other
        onward (ok a) v k later = later v k
        onward (err e) v k later = k

    apply_all-IsApplied :
        (names : List Str) (h : Handle S)
        → (apply_all names h).0 ≡ ok tt
        → All (IsApplied (apply_all names h).1) names
    unfolding apply_all
    apply_all-IsApplied [] h e = tt
    apply_all-IsApplied (name ∷ names) h e =
        onward (apply_one name h).0 (apply_one name h).1 (apply_one-IsApplied name h)
          (λ v. apply_all-IsApplied names v) e
      where
        onward :
            (r : Result MigrationError (Unit {0})) (v : Handle S)
            → (r ≡ ok tt → IsApplied v name)
            → ((u : Handle S)
                → (apply_all names u).0 ≡ ok tt
                → All (IsApplied (apply_all names u).1) names)
            → (continue r (λ _. apply_all names) v).0 ≡ ok tt
            → let out = (continue r (λ _. apply_all names) v).1 in
              IsApplied out name × All (IsApplied out) names
        onward (ok a) v k later e = (apply_all-kept names name v (k refl), later v e)
        onward (err f) v k later e = ground (arith, e)

    apply_one-again :
        (name : Str) (h : Handle S)
        → IsApplied h name
        → apply_one name (unfailing h) ≡ (ok tt, unfailing h)
    unfolding apply_one is_applied faulty
    apply_one-again name h k = ground (arith, k)

    apply_all-again :
        (names : List Str) (h : Handle S)
        → All (IsApplied h) names
        → apply_all names (unfailing h) ≡ (ok tt, unfailing h)
    unfolding apply_all
    apply_all-again [] h k = refl
    apply_all-again (name ∷ names) h k =
        rw (apply_one-again name h k.0) (apply_all-again names h k.1)

    migrate-all :
        (names : List Str) (h : Handle S)
        → (migrate names h).0 ≡ ok tt
        → All (IsApplied (migrate names h).1) (order_by (λ a b. not (str_lt b a)) names)
    unfolding migrate
    migrate-all names h e = elim (Bool-cases (faulty h.faults)) [
      | inl bad ↦ absurd (stopped (rw bad at e))
      | inr good ↦
          rw good (apply_all-IsApplied _ (record h { faults = rest h.faults }) (rw good at e))
    ]
      where
        stopped : ◌≡◌ {A = Result MigrationError (Unit {0})} (err statement) (ok tt) → ⊥
        stopped h = ground (arith, h)

    again :
        (names : List Str) (h : Handle S)
        → All (IsApplied h) (order_by (λ a b. not (str_lt b a)) names)
        → migrate names (unfailing h) ≡ (ok tt, unfailing h)
    unfolding migrate faulty
    again names h k = apply_all-again _ h k

    -- After a migration that succeeds, with any of its steps skipped for a column that is there
    -- already, a second one without faults changes neither the schema nor the list of applied
    -- scripts.
    pub migrate-migrate :
        (names : List Str) (h : Handle S)
        → (migrate names h).0 ≡ ok tt
        → migrate names (unfailing (migrate names h).1) ≡ (ok tt, unfailing (migrate names h).1)
    migrate-migrate names h e = again names (migrate names h).1 (migrate-all names h e)
