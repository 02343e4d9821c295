-- ===== src/Server/Setup.antt =====
-- ensureAuth of cmd/ooblivion/main.go, which sets the administrator's first password.
use ooblivion.Shared.{
  ◌≡◌, ◌≢◌, ◌≤◌, ◌<◌, sym, subst, ◌⊎◌, arith, ℕ, ltb, length, Str, is_empty, true, Option, none,
  some, if◌then◌else◌,
}
use ooblivion.Exec.{Result, ok, Exec, ◌>>=◌, pure, raise, or_else}
use ooblivion.Db.{Credentials, Tables, World, Error, exec, query_row, faulty, answered}
use ooblivion.Auth.Passwords.{
  PasswordLib, IsSound, hash_password, verify_password, verify_password-hash_password,
}
use ooblivion.Capture.Saving.{healthy}
use ooblivion.Scheduler.{Clock}

pub data SetupError : Type 0 where
  no_password : SetupError
  short_password : SetupError
  no_salt : SetupError
  database : Error → SetupError

-- SELECT COUNT(*) FROM auth: the table has one row at most
abbrev row_count : Option Credentials → ℕ
row_count none = 0
row_count (some row) = 1

-- INSERT INTO auth
unfoldable pub insert_auth : Str → Str → Tables → Option (Unit {0} × Tables)
insert_auth hash now t = elim t.auth [
  | none ↦ some (
    tt,
    record t { auth = some (record { password_hash = hash; created_at = now; updated_at = now }) },
  )
  | some row ↦ none
]

abbrev pub hash_or : Option Str → Exec World SetupError Str
hash_or none = raise no_salt
hash_or (some hash) = pure hash

module _ (lib : PasswordLib) (clock : Clock) where
  -- what follows the count
  unfoldable pub set_password : Str → Option Str → ℕ → Exec World SetupError (Unit {0})
  unfolding insert_auth hash_password
  set_password password random now =
      if is_empty password
      then raise no_password
      else if ltb (length password) 16
      then raise short_password
      else (hash_or (hash_password lib password random) >>= λ hash.
          or_else database (exec (insert_auth hash (clock.stamp now))))

  -- ensureAuth; `random` is the salt
  unfoldable pub ensure_auth : Str → Option Str → ℕ → Exec World SetupError (Unit {0})
  unfolding set_password
  ensure_auth password random now = do
    count ← or_else database (query_row (λ (t : Tables). some (row_count t.auth)))
    if ltb 0 count then pure tt else set_password password random now

-- The password that a row of the table lets in.
abbrev pub Accepts : PasswordLib → Option Credentials → Str → Type 0
Accepts lib none password = ⊥
Accepts lib (some row) password = verify_password lib row.password_hash password ≡ some true

module _ (lib : PasswordLib) (clock : Clock) (password salt : Str) (now : ℕ) (w : World) where
  abbrev out : Result SetupError (Unit {0}) × World
  out = ensure_auth lib clock password (some salt) now (healthy w)

  stored :
      (hash : Str)
      → w.db.auth ≡ none
      → hash_password lib password (some salt) ≡ some hash
      → 16 ≤ length password
      → (out.0 ≡ ok tt)
        × (out.1.db.auth
            ≡ some (record {
              password_hash = hash;
              created_at = clock.stamp now;
              updated_at = clock.stamp now;
            }))
  unfolding ensure_auth set_password insert_auth exec query_row faulty answered
  stored hash empty e long = ground (arith, e)

  -- A start without faults on an empty table, with a password of at least 16 bytes that can be
  -- hashed and sound packages, succeeds and leaves a row that lets in the configured password.
  pub ensure_auth_lem :
      (hash : Str)
      → IsSound lib
      → w.db.auth ≡ none
      → hash_password lib password (some salt) ≡ some hash
      → 16 ≤ length password
      → (out.0 ≡ ok tt) × Accepts lib out.1.db.auth password
  ensure_auth_lem hash sound empty e long =
      let (done, row) = stored hash empty e long in
      (
        done,
        subst (λ a. Accepts lib a password) (sym row)
            (verify_password-hash_password lib sound password password salt hash e).1,
      )

  -- Where the table has a row, the start leaves the password as it is, whatever the configuration
  -- says; with an empty table, a shorter password stops it, and nothing is stored.
  pub ensure_auth_kept : (w.db.auth ≢ none) ⊎ (length password < 16) → out.1.db ≡ w.db
  unfolding ensure_auth set_password insert_auth exec query_row faulty answered
  ensure_auth_kept h = ground (arith, h)
