-- ===== src/Server/Hosts.antt =====
-- The admin host gate of cmd/ooblivion/main.go against the list of internal/config/config.go.
use ooblivion.Shared.{
  Str, codes, str_eq, str_eq_iff, is_empty, split, last_index, true, not, List, [], ◌∷◌, ◌≡◌, ◌⊎◌,
  ◌↔◌, refl, ◌∙◌, arith, any, filter, map, Member,
}
use ooblivion.Http.{HttpRequest, header_get}
use ooblivion.Config.{HostText, strip_port, hosts_of, parse_hosts}
use ooblivion.Server.{RootHandler, normalize_host, is_admin_host}

strip_port-nil : strip_port [] ≡ []
unfolding strip_port last_index
strip_port-nil = refl

-- The hosts that are given in ADMIN_HOST, as the gate compares them.
abbrev pub given_hosts : HostText → Str → List Str
given_hosts t raw = filter (λ host. not (is_empty host)) (map (normalize_host t) (split b',' raw))

hosts_of-eq :
    (t : HostText) (parts : List Str)
    → hosts_of t parts ≡ filter (λ host. not (is_empty host)) (map (normalize_host t) parts)
unfolding hosts_of normalize_host filter
hosts_of-eq t [] = refl
hosts_of-eq t (part ∷ parts) = ground (arith, hosts_of-eq t parts, strip_port-nil)

any-str_eq_iff : (x : Str) (hosts : List Str) → (any (str_eq x) hosts ≡ true) ↔ Member x hosts
unfolding any
any-str_eq_iff x [] = (λ e. cc, λ m. elim m [ ])
any-str_eq_iff x (host ∷ hosts) = ground (arith, str_eq_iff x host, any-str_eq_iff x hosts)

is_admin_host_of :
    (h : RootHandler) (r : HttpRequest) (hosts : List Str)
    → h.admin_hosts ≡ hosts
    → (is_admin_host h r ≡ true) ↔ (
        (hosts ≡ [])
        ⊎ Member (normalize_host h.host_text r.host) hosts
        ⊎ Member (normalize_host h.host_text (header_get r (codes "X-Forwarded-Host"))) hosts)
unfolding is_admin_host
is_admin_host_of h r [] e = ground arith
is_admin_host_of h r (host ∷ hosts) e = ground (
  arith,
  any-str_eq_iff (normalize_host h.host_text r.host) (host ∷ hosts),
  any-str_eq_iff (normalize_host h.host_text (header_get r (codes "X-Forwarded-Host")))
      (host ∷ hosts),
)

-- With hosts from ADMIN_HOST, a request may reach the console exactly when ADMIN_HOST names no
-- host, or one of its hosts is, after the same normalisation, the request's Host or its
-- X-Forwarded-Host.
pub is_admin_host_iff :
    (h : RootHandler) (r : HttpRequest) (raw : Str)
    → h.admin_hosts ≡ parse_hosts h.host_text raw
    → (is_admin_host h r ≡ true) ↔ (
        (given_hosts h.host_text raw ≡ [])
        ⊎ Member (normalize_host h.host_text r.host) (given_hosts h.host_text raw)
        ⊎ Member
            (normalize_host h.host_text (header_get r (codes "X-Forwarded-Host")))
            (given_hosts h.host_text raw))
unfolding parse_hosts
is_admin_host_iff h r raw e = is_admin_host_of h r _ (e ∙ hosts_of-eq h.host_text (split b',' raw))
