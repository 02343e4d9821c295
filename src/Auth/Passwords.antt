-- ===== src/Auth/Passwords.antt =====
-- HashPassword and VerifyPassword of internal/auth/auth.go. The packages argon2, encoding/json,
-- encoding/base64 and crypto/rand are a parameter.
use ooblivion.Shared.{
  ◌≡◌, ℕ, ◌*◌, Str, str_eq, str_eq_refl, Bool, true, Option, none, some, length, arith,
}

-- the fields of the stored JSON object
pub record Params : Type 0 where
  pub time : ℕ
  pub memory : ℕ
  pub threads : ℕ
  pub salt : Str
  pub hash : Str

pub record PasswordLib : Type 0 where
  pub marshal : Params → Option Str
  pub unmarshal : Str → Option Params
  -- base64.RawStdEncoding
  pub encode : Str → Str
  pub decode : Str → Option Str
  -- argon2.IDKey: password, salt, time, memory, threads and the length of the key
  pub id_key : Str → Str → ℕ → ℕ → ℕ → ℕ → Str

abbrev argon_time : ℕ
argon_time = 2

abbrev argon_memory : ℕ
argon_memory = 64 * 1024

abbrev argon_threads : ℕ
argon_threads = 4

abbrev argon_key_len : ℕ
argon_key_len = 32

-- What the program relies on: JSON and base64 read back what they write, and a key has
-- the length that is asked for
pub record IsSound (lib : PasswordLib) : Type 0 where
  pub unmarshal-marshal :
      (p : Params) (text : Str) → lib.marshal p ≡ some text → lib.unmarshal text ≡ some p
  pub decode-encode : (bytes : Str) → lib.decode (lib.encode bytes) ≡ some bytes
  pub length-id_key :
      (password salt : Str) (t m p n : ℕ) → length (lib.id_key password salt t m p n) ≡ n

module _ (lib : PasswordLib) where
  abbrev hashed : Str → Str → Option Str
  hashed password salt = lib.marshal (record {
    time = argon_time;
    memory = argon_memory;
    threads = argon_threads;
    salt = lib.encode salt;
    hash =
        lib.encode (lib.id_key password salt argon_time argon_memory argon_threads argon_key_len);
  })

  -- HashPassword; `random` is what rand.Read gives for the salt
  unfoldable pub hash_password : Str → Option Str → Option Str
  hash_password password none = none
  hash_password password (some salt) = hashed password salt

  abbrev compared : Str → Params → Option Str → Option Str → Option Bool
  compared password p none want = none
  compared password p (some salt) none = none
  compared password p (some salt) (some want) =
      some (str_eq (lib.id_key password salt p.time p.memory p.threads (length want)) want)

  -- VerifyPassword; `none` is an error
  unfoldable pub verify_password : Str → Str → Option Bool
  verify_password encoded password = elim (lib.unmarshal encoded) [
    | none ↦ none
    | some p ↦ compared password p (lib.decode p.salt) (lib.decode p.hash)
  ]

-- With sound packages, a stored hash accepts a password exactly if it has the same Argon2id key
-- under the stored salt as the password that was hashed, and so accepts that one.
pub verify_password-hash_password :
    (lib : PasswordLib) (sound : IsSound lib) (password guess salt text : Str)
    (h : hash_password lib password (some salt) ≡ some text)
    → (verify_password lib text guess
        ≡ some
            (str_eq (lib.id_key guess salt 2 65536 4 32) (lib.id_key password salt 2 65536 4 32)))
      × (verify_password lib text password ≡ some true)
unfolding hash_password verify_password
verify_password-hash_password lib sound password guess salt text h =
    let key = lib.id_key password salt 2 65536 4 32 in
    ground (
      arith,
      sound.unmarshal-marshal
          (record {
            time = 2;
            memory = 65536;
            threads = 4;
            salt = lib.encode salt;
            hash = lib.encode key;
          })
          text,
      sound.decode-encode salt,
      sound.decode-encode key,
      sound.length-id_key password salt 2 65536 4 32,
      str_eq_refl key,
    )
