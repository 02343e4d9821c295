-- ===== src/Interleaving/Logins.antt =====
-- handleLogin of internal/admin/handlers_auth.go, with what other goroutines do between its check of
-- the password and its reading of the token version; the check takes its time, for Argon2id.
use ooblivion.Shared.{
  ◌≡◌, sym, subst, arith, ℕ, ◌<◌, pos, Str, codes, false, Option, some, inl, inr, Option-cases,
}
use ooblivion.Exec.{ok, Exec, pure, modify, ◌>>=◌, ◌>>◌, try}
use ooblivion.Db.{World, exec, query_row, faulty, answered}
use ooblivion.Db.Audit.{insert_audit}
use ooblivion.Http.{HttpRequest, cookie}
use ooblivion.Http.ClientIp.{auth_client_ip}
use ooblivion.Auth.Denylist.{is_denied}
use ooblivion.Auth.Tokens.{
  IsReadable, issue_jwt, parse_jwt-issue_jwt, session_claims, times, hour_ns,
}
use ooblivion.Scheduler.Settings.{read_setting, read_value}
use ooblivion.Capture.Saving.{healthy}
use ooblivion.Admin.{Reply, Handler, put, success, log_audit}
use ooblivion.Admin.Sessions.{
  Console, cookie_name, current_claims, token_version, stored_hash, set_cookie,
}
use ooblivion.Admin.Sessions.Accounts.{login, limit, body_or, token_or, checked_hash}
use ooblivion.Admin.Sessions.Revocation.{version_of}
use ooblivion.Admin.Sessions.Login.{issued-current_claims}

-- what follows four statements may follow the last of them
regroup :
    {S E A B C D R : Type 0} (m : Exec S E A) (n : Exec S E B) (o : Exec S E C)
    (f : B → C → Exec S E D) (k : Exec S E R) (s : S)
    → ((m >> (n >>= λ b. o >>= λ c. f b c)) >> k) s ≡ (m >> (n >>= λ b. o >>= λ c. f b c >> k)) s
regroup m n o f k s = ground arith

module _ (c : Console) where
  -- handleLogin up to the check of the password
  unfoldable pub checking : HttpRequest → Option Str → ℕ → Exec World Reply Str
  checking r body now = do
    limit c (auth_client_ip c.trim_space r) now
    password ← body_or c body
    found ← try stored_hash
    checked_hash c password (auth_client_ip c.trim_space r) now found

  -- handleLogin behind it
  unfoldable pub admitting : HttpRequest → Option Str → ℕ → Handler
  admitting r random now = do
    version ← token_version
    token ← token_or c (issue_jwt c.tokens c.secret c.session_ttl version now random)
    log_audit c.clock (codes "login") (codes "admin logged in") (auth_client_ip c.trim_space r) now
    pure (record { status = 200; content = success; session = put (set_cookie c r token) })

  unfoldable pub login_around :
      (World → World) → HttpRequest → Option Str → Option Str → ℕ → Handler
  unfolding checking admitting
  login_around others r body random now = do
    checking r body now
    modify others
    admitting r random now

  -- With nothing in between, this is the handler.
  pub login_around-idle :
      (r : HttpRequest) (body random : Option Str) (now : ℕ) (w : World)
      → login_around (λ v. v) r body random now w ≡ login c r body random now w
  unfolding login_around checking admitting login
  login_around-idle r body random now w =
      regroup (limit c (auth_client_ip c.trim_space r) now) (body_or c body) (try stored_hash)
        (λ password found. checked_hash c password (auth_client_ip c.trim_space r) now found)
        (admitting r random now) w

  admitting-db :
      (r : HttpRequest) (jti : Str) (now : ℕ) (w : World)
      → ((admitting r (some jti) now (healthy w)).1.db.settings ≡ w.db.settings)
        × ((admitting r (some jti) now (healthy w)).1.db.jwt_denylist ≡ w.db.jwt_denylist)
  unfolding admitting token_version log_audit exec query_row read_setting faulty answered
      insert_audit
  admitting-db r jti now w = ground arith

  admitting-issue_jwt :
      (r : HttpRequest) (jti : Str) (now : ℕ) (w : World) (reply : Reply)
      → (admitting r (some jti) now (healthy w)).0 ≡ ok reply
      → (token : Str) × (issue_jwt c.tokens c.secret c.session_ttl (version_of w) now (some jti)
          ≡ some token)
        × (reply.session ≡ put (set_cookie c r token))
  unfolding admitting token_version log_audit exec query_row read_setting read_value faulty answered
      insert_audit
  admitting-issue_jwt r jti now w reply h =
      elim (Option-cases
        (issue_jwt c.tokens c.secret c.session_ttl (version_of w) now (some jti))) [
          | inl failed ↦ ground (arith, failed)
          | inr (token, issued) ↦ (token, issued, ground (arith, issued))
        ]

  -- The session of a token is admitted in a world.
  abbrev pub Admitted : Str → Str → ℕ → World → World → Type 0
  Admitted token jti now issued_in w =
      (visit : HttpRequest) (later : ℕ)
      → cookie visit cookie_name ≡ some token
      → c.tokens.numeric_date later (pos 0)
        < c.tokens.numeric_date now (times hour_ns c.session_ttl)
      → (current_claims c visit later (healthy w)).0
        ≡ ok (session_claims c.tokens c.session_ttl (version_of issued_in) now jti)

  admitting-current_claims :
      (r : HttpRequest) (jti : Str) (now : ℕ) (w : World) (reply : Reply)
      → IsReadable c.tokens
      → is_denied jti w.db ≡ false
      → (admitting r (some jti) now (healthy w)).0 ≡ ok reply
      → (token : Str) × (reply.session ≡ put (set_cookie c r token))
        × Admitted token jti now w (admitting r (some jti) now (healthy w)).1
  admitting-current_claims r jti now w reply readable free h =
      let (token, issued, set) = admitting-issue_jwt r jti now w reply h in
      (
        token,
        set,
        λ visit later carries fresh.
            issued-current_claims c w (admitting r (some jti) now (healthy w)).1 jti now visit later
              token (admitting-db r jti now w).0 (admitting-db r jti now w).1 free carries
              (parse_jwt-issue_jwt c.tokens c.secret token readable c.session_ttl (version_of w) now
                later jti issued fresh),
      )

  -- the world that the rest of a successful login starts in
  checked_lem :
      (others : World → World) (r : HttpRequest) (body random : Option Str) (now : ℕ) (w : World)
      (reply : Reply)
      → (login_around others r body random now w).0 ≡ ok reply
      → login_around others r body random now w
        ≡ admitting r random now (others (checking r body now w).1)
  unfolding login_around
  checked_lem others r body random now w reply h = ground arith

  -- the world when the token version is read, after what the others did
  abbrev pub then_world : (World → World) → HttpRequest → Option Str → ℕ → World → World
  then_world others r body now w = others (checking r body now (healthy w)).1

  -- Let other goroutines do anything between the check of a login's password and the reading of
  -- the token version, a change of the password included. With readable tokens and a new
  -- identifier that is not denied then, a login without faults that succeeds sets a cookie whose
  -- token is of the version read, and is admitted in the world that the login leaves, until it
  -- expires.
  pub login_around-current_claims :
      (others : World → World) (r : HttpRequest) (body : Option Str) (jti : Str) (now : ℕ)
      (w : World) (reply : Reply)
      → IsReadable c.tokens
      → is_denied jti (then_world others r body now w).db ≡ false
      → (login_around (λ v. healthy (others v)) r body (some jti) now (healthy w)).0 ≡ ok reply
      → (token : Str) × (reply.session ≡ put (set_cookie c r token))
        × Admitted token jti now
            (then_world others r body now w)
            (login_around (λ v. healthy (others v)) r body (some jti) now (healthy w)).1
  login_around-current_claims others r body jti now w reply readable free h =
      let same = checked_lem (λ v. healthy (others v)) r body (some jti) now (healthy w) reply h in
      let (token, set, lives) =
        admitting-current_claims r jti now (then_world others r body now w) reply readable free
          (subst (λ out. out.0 ≡ ok reply) same h) in
      (
        token,
        set,
        subst (λ out. Admitted token jti now (then_world others r body now w) out.1) (sym same)
            lives,
      )
