-- ===== src/Server/Routes.antt =====
-- Which requests ServeHTTP of cmd/ooblivion/main.go captures.
use ooblivion.Shared.{
  ℕ, Str, codes, str_eq_iff, Bool, true, false, [], ◌≡◌, ◌≢◌, ◌⊎◌, ◌↔◌, inl, inr, refl, arith,
  Member,
}
use ooblivion.Db.{World}
use ooblivion.Http.{HttpRequest, header_get}
use ooblivion.Config.{parse_hosts}
use ooblivion.Server.{
  RootHandler, answered, probe_answer, health_path, is_health_probe, is_admin_host, capture,
  serve_http, normalize_host,
}
use ooblivion.Server.Hosts.{given_hosts, is_admin_host_iff}

-- The request carries the configured secret on the health path.
abbrev pub IsProbe : RootHandler → HttpRequest → Type 0
IsProbe h r =
    (r.path ≡ health_path)
    × (h.health_secret ≢ [])
    × (header_get r (codes "X-Health-Check") ≡ h.health_secret)

is_health_probe_iff :
    (h : RootHandler) (r : HttpRequest) → (is_health_probe h r ≡ true) ↔ IsProbe h r
unfolding is_health_probe
is_health_probe_iff h r = ground (
  arith,
  str_eq_iff r.path health_path,
  str_eq_iff (header_get r (codes "X-Health-Check")) h.health_secret,
)

-- The normalised Host or X-Forwarded-Host is one of the hosts that ADMIN_HOST gives.
abbrev pub IsGiven : RootHandler → Str → HttpRequest → Type 0
IsGiven h raw r =
    Member (normalize_host h.host_text r.host) (given_hosts h.host_text raw)
    ⊎ Member (normalize_host h.host_text (header_get r (codes "X-Forwarded-Host")))
        (given_hosts h.host_text raw)

module _ (h : RootHandler) (now : ℕ) (r : HttpRequest) (w : World) where
  -- A request that carries the secret on the health path is answered with "ok", and nothing is
  -- stored.
  pub serve_http-IsProbe : IsProbe h r → serve_http h now r w ≡ (answered probe_answer, w)
  unfolding serve_http
  serve_http-IsProbe p = ground (arith, (is_health_probe_iff h r).1 p)

  -- Where ADMIN_HOST gives hosts, every request that is no health probe and names none of them, in
  -- Host or in X-Forwarded-Host, is captured, also under the paths of the console.
  pub serve_http_other_host :
      (raw : Str)
      → h.admin_hosts ≡ parse_hosts h.host_text raw
      → given_hosts h.host_text raw ≢ []
      → ¬ IsProbe h r
      → ¬ IsGiven h raw r
      → serve_http h now r w ≡ capture h now r w
  unfolding serve_http
  serve_http_other_host raw e some_host no_probe not_given =
      let closed : is_admin_host h r ≡ false = gate (is_admin_host h r) refl in
      let unprobed : is_health_probe h r ≡ false = probed (is_health_probe h r) refl in
      ground (arith, closed, unprobed)
    where
      gate : (b : Bool) → is_admin_host h r ≡ b → b ≡ false
      gate true open_ = absurd (refused ((is_admin_host_iff h r raw e).0 open_))
        where
          refused :
              (given_hosts h.host_text raw ≡ [])
                ⊎ Member (normalize_host h.host_text r.host) (given_hosts h.host_text raw)
                ⊎ Member
                    (normalize_host h.host_text (header_get r (codes "X-Forwarded-Host")))
                    (given_hosts h.host_text raw)
              → ⊥
          refused (inl none_) = some_host none_
          refused (inr given) = not_given given
      gate false _ = refl

      probed : (b : Bool) → is_health_probe h r ≡ b → b ≡ false
      probed true p = absurd (no_probe ((is_health_probe_iff h r).0 p))
      probed false _ = refl
