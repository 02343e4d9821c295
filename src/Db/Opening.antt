-- ===== src/Db/Opening.antt =====
-- Open of internal/db/db.go. The files, with package os and the SQLite driver, are a parameter: a
-- state, and operations that answer the text of an error or nothing.
use ooblivion.Shared.{
  ℕ, ◌≡◌, refl, arith, Str, codes, str_eq, subst, ap, Option, none, some, List, ◌++◌, if◌then◌else◌,
}
use ooblivion.Exec.{Result, ok, err, Exec, continue, pure, ◌>>=◌, ◌>>◌}
use ooblivion.Db.Migrations.{MigrationError, Outcome, Handle, unfailing, migrate, migrate-migrate}

-- the wrapped errors of Open
pub data OpenError : Type 0 where
  create_data_dir chmod_data_dir chmod_db driver : Str → OpenError
  migration : MigrationError → OpenError

pub record Disk (F S : Type 0) : Type 0 where
  -- filepath.Dir
  pub dir : Str → Str
  pub mkdir_all : Str → ℕ → F → Option Str × F
  pub chmod : Str → ℕ → F → Option Str × F
  -- sql.Open
  pub connect : Str → F → Result Str (Handle S) × F
  pub ping : Handle S → F → Option Str × F

abbrev pub owner_all : ℕ
owner_all = 0o700

abbrev pub owner_file : ℕ
owner_file = 0o600

abbrev dsn : Str → Str
dsn path =
    codes "file:"
    ++ path
    ++ codes "?_pragma=busy_timeout(5000)&_pragma=journal_mode(WAL)&_pragma=foreign_keys(1)"

module _ {F S : Type 0} (disk : Disk F S) where
  abbrev failing : (Str → OpenError) → Option Str → Result OpenError (Unit {0})
  failing wrap none = ok tt
  failing wrap (some text) = err (wrap text)

  -- `if err := f(); err != nil { return nil, wrap(err) }`
  abbrev pub trying : (Str → OpenError) → (F → Option Str × F) → Exec F OpenError (Unit {0})
  trying wrap f s = let (e, s') = f s in (failing wrap e, s')

  abbrev connected : Result Str (Handle S) → Result OpenError (Handle S)
  connected (ok h) = ok h
  connected (err text) = err (driver text)

  unfoldable pub connecting : Str → Exec F OpenError (Handle S)
  connecting path s = let (r, s') = disk.connect (dsn path) s in (connected r, s')

  unfoldable pub preparing_dir : Str → Exec F OpenError (Unit {0})
  preparing_dir path = if str_eq (disk.dir path) (codes ".") then pure tt else do
    trying create_data_dir (disk.mkdir_all (disk.dir path) owner_all)
    trying chmod_data_dir (disk.chmod (disk.dir path) owner_all)

  module _ (execute : Str → S → Outcome × S) (names : List Str) where
    abbrev brought : Result MigrationError (Unit {0}) × Handle S → Result OpenError (Handle S)
    brought (ok tt, h) = ok h
    brought (err e, h) = err (migration e)

    unfoldable pub migrating : Handle S → Exec F OpenError (Handle S)
    unfolding migrate
    migrating h s = (brought (migrate execute names h), s)

    -- Open
    unfoldable pub open_db : Str → Exec F OpenError (Handle S)
    unfolding preparing_dir connecting migrating
    open_db path = do
      preparing_dir path
      handle ← connecting path
      trying driver (disk.ping handle)
      handle ← migrating handle
      trying chmod_db (disk.chmod path owner_file)
      pure handle

-- What the code relies on: a chmod that succeeds sets the mode that a path shows, links followed.
pub record HasModes {F S : Type 0} (disk : Disk F S) (mode : Str → F → ℕ) : Type 0 where
  pub chmod_sets :
      (path : Str) (m : ℕ) (s : F)
      → (disk.chmod path m s).0 ≡ none
      → mode path (disk.chmod path m s).1 ≡ m

-- What holds of the value and the state, if the code does not stop.
abbrev Gives : {F E A : Type 0} → (A → F → Type 0) → Result E A × F → Type 0
Gives Q (ok a, s) = Q a s
Gives Q (err e, s) = Unit {0}

value_or : {E A : Type 0} → A → Result E A → A
value_or a (ok b) = b
value_or a (err e) = a

Gives-continue :
    {F E A B : Type 0} (Q : A → F → Type 0) (R : B → F → Type 0) (f : A → Exec F E B)
    (r : Result E A) (s : F)
    → Gives Q (r, s)
    → ((a : A) (s' : F) → Q a s' → Gives R (f a s'))
    → Gives R (continue r f s)
Gives-continue Q R f (ok a) s q k = k a s q
Gives-continue Q R f (err e) s q k = tt

module _ {F S : Type 0} (disk : Disk F S) (execute : Str → S → Outcome × S) (names : List Str)
    (mode : Str → F → ℕ) (modes : HasModes disk mode) (path : Str) where
  abbrev IsMigrated : Handle S → Type 0
  IsMigrated h = migrate execute names (unfailing h) ≡ (ok tt, unfailing h)

  abbrev IsPrivate : F → Type 0
  IsPrivate s = mode path s ≡ owner_file

  Gives-any : {E A : Type 0} (o : Result E A × F) → Gives (λ _ _. Unit {0}) o
  Gives-any (ok a, s) = tt
  Gives-any (err e, s) = tt

  migrating-Gives :
      (h : Handle S) (s : F) → Gives (λ h' _. IsMigrated h') (migrating disk execute names h s)
  unfolding migrating
  migrating-Gives h s = by_answer (migrate execute names h).0 refl
    where
      by_answer :
          (r : Result MigrationError (Unit {0}))
          → (migrate execute names h).0 ≡ r
          → Gives
              (λ h' (_ : F). IsMigrated h')
              (brought disk execute names (r, (migrate execute names h).1), s)
      by_answer (ok a) e = migrate-migrate execute names h e
      by_answer (err f) e = tt

  closing-Gives :
      (s : F) → Gives (λ _ s'. IsPrivate s') (trying disk chmod_db (disk.chmod path owner_file) s)
  closing-Gives s = by_answer (disk.chmod path owner_file s).0 refl
    where
      by_answer :
          (e : Option Str)
          → (disk.chmod path owner_file s).0 ≡ e
          → Gives
              (λ (_ : Unit {0}) s'. IsPrivate s')
              (failing disk chmod_db e, (disk.chmod path owner_file s).1)
      by_answer none e = modes.chmod_sets path owner_file s e
      by_answer (some text) e = tt

  open_db-Gives :
      (s : F) → Gives (λ h s'. IsPrivate s' × IsMigrated h) (open_db disk execute names path s)
  unfolding open_db
  open_db-Gives s =
      Gives-continue (λ _ _. Unit {0}) Done _ _ _ (Gives-any (preparing_dir disk path s))
        (λ _ s₁ _.
          Gives-continue (λ _ _. Unit {0}) Done _ _ _ (Gives-any (connecting disk path s₁))
            (λ h s₂ _.
              Gives-continue (λ _ _. Unit {0}) Done _ _ _
                (Gives-any (trying disk driver (disk.ping h) s₂))
                (λ _ s₃ _.
                  Gives-continue (λ h' _. IsMigrated h') Done _ _ _ (migrating-Gives h s₃)
                    (λ h' s₄ done.
                      Gives-continue (λ _ s'. IsPrivate s') Done _ _ _ (closing-Gives s₄)
                        (λ _ s₅ private. (private, done))))))
    where
      Done : Handle S → F → Type 0
      Done h s' = IsPrivate s' × IsMigrated h

  -- An opening of the database that succeeds leaves the file to its owner to read and write; a
  -- second migration of the handle without faults finds nothing to do.
  pub open_db_lem :
      (s : F) (h : Handle S)
      → (open_db disk execute names path s).0 ≡ ok h
      → (mode path (open_db disk execute names path s).1 ≡ owner_file)
        × (migrate execute names (unfailing h) ≡ (ok tt, unfailing h))
  unfolding value_or
  open_db_lem s h opened = by_answer (open_db disk execute names path s).0 opened (open_db-Gives s)
    where
      by_answer :
          (r : Result OpenError (Handle S))
          → r ≡ ok h
          → Gives (λ h' s'. IsPrivate s' × IsMigrated h') (r, (open_db disk execute names path s).1)
          → (mode path (open_db disk execute names path s).1 ≡ owner_file)
            × (migrate execute names (unfailing h) ≡ (ok tt, unfailing h))
      by_answer (ok h') same g = (g.0, subst IsMigrated (ap (value_or h) same) g.1)
      by_answer (err e) same g = absurd (ground (arith, same))
