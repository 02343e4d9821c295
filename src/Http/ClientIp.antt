-- ===== src/Http/ClientIp.antt =====
-- clientIP and forwardedIPs of internal/capture/capture.go; ClientIP and splitHostPort of
-- internal/auth/auth.go. strings.TrimSpace (the Unicode spaces) is a parameter.
use ooblivion.Shared.{
  ℕ, suc, Str, codes, is_empty, split, last_index, take, drop, Option, none, some, [], ◌≡◌, arith,
  if◌then◌else◌,
}
use ooblivion.Http.{HttpRequest, header_get, first_value}

-- addr[:i] at the last colon, or the whole address
abbrev before_colon : Str → Option ℕ → Str
before_colon addr none = addr
before_colon addr (some i) = take i addr

-- the result has no error on either branch
unfoldable pub split_host_port : Str → Str × Str
split_host_port addr = elim (last_index b':' addr) [
  | some i ↦ (take i addr, drop (suc i) addr)
  | none ↦ (addr, [])
]

module _ (trim_space : Str → Str) (r : HttpRequest) where
  abbrev cf : Str
  cf = header_get r (codes "Cf-Connecting-Ip")

  abbrev fwd : Str
  fwd = header_get r (codes "X-Forwarded-For")

  abbrev real : Str
  real = header_get r (codes "X-Real-IP")

  -- clientIP of internal/capture
  unfoldable pub capture_client_ip : Str
  capture_client_ip =
      if is_empty cf
      then if is_empty fwd
        then if is_empty real
          then before_colon r.remote_addr (last_index b':' r.remote_addr)
          else trim_space real
        else trim_space (first_value (split b',' fwd))
      else trim_space cf

  -- ClientIP of internal/auth
  unfoldable pub auth_client_ip : Str
  unfolding split_host_port
  auth_client_ip =
      if is_empty cf
      then if is_empty fwd
        then if is_empty real then (split_host_port r.remote_addr).0 else trim_space real
        else trim_space (first_value (split b',' fwd))
      else trim_space cf

  unfoldable pub forwarded_ips : Str
  forwarded_ips = if is_empty fwd then real else fwd

  -- The address stored with a captured request is the one that the audit log and the login limiter
  -- use for the same request.
  pub capture_client_ip-eq-auth_client_ip : capture_client_ip ≡ auth_client_ip
  unfolding capture_client_ip auth_client_ip
  capture_client_ip-eq-auth_client_ip = ground arith
