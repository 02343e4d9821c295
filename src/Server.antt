-- ===== src/Server.antt =====
-- cmd/ooblivion/main.go: which requests are answered as health probes, which go to the console, and
-- which are captured. The console (internal/admin) and the decoder of the stored headers (package
-- encoding/json) are parameters here.
pub mod Setup
pub mod Hosts
pub mod Routes
pub mod Captures
use ooblivion.Shared.{
  ℕ, ◌≡◌, Str, codes, str_eq, is_empty, has_prefix, Bool, true, false, not, ◌&&◌, ◌||◌, List, [],
  ◌∷◌, any, if◌then◌else◌,
}
use ooblivion.Exec.{Result, ok, err, Exec}
use ooblivion.Matcher.{Subject}
use ooblivion.Models.{Request}
use ooblivion.Db.{World, Error, panic}
use ooblivion.Http.{HttpRequest, Response, header_get}
use ooblivion.Config.{HostText, strip_port}
use ooblivion.Capture.{Capturing, store}
use ooblivion.Capture.Classify.{Classifying, classify}

pub record RootHandler : Type 0 where
  pub capturing : Capturing
  pub classifying : Classifying
  pub host_text : HostText
  pub unmarshal : Str → List (Str × Str)
  pub admin : HttpRequest → World → Response × World
  pub admin_hosts : List Str
  pub health_secret : Str

abbrev pub health_path : Str
health_path = codes "/healthz"

-- normalizeHost
unfoldable pub normalize_host : HostText → Str → Str
unfolding strip_port
normalize_host t host = strip_port (t.to_lower (t.trim_space host))

-- subjectFromRequest
unfoldable pub subject_from_request : (Str → List (Str × Str)) → Request → Subject
subject_from_request unmarshal req = record {
  method = req.method;
  host = req.host;
  path = req.path;
  query = req.query;
  body = req.body;
  user_agent = req.user_agent;
  source_ip = req.source_ip;
  headers = unmarshal req.request_headers;
}

abbrev pub probe_answer : Response
probe_answer = record { status = 200; body = codes "ok\n" }

-- catchAll
abbrev pub catch_all : Response
catch_all = record { status = 200; body = [] }

-- the answer of net/http to a handler that panics: the connection is closed
pub data Served : Type 0 where
  answered : Response → Served
  aborted : Served

module _ (h : RootHandler) where
  -- isHealthProbe; subtle.ConstantTimeCompare is equality
  unfoldable pub is_health_probe : HttpRequest → Bool
  is_health_probe r =
      if not (str_eq r.path health_path)
      then false
      else if is_empty h.health_secret
      then false
      else str_eq (header_get r (codes "X-Health-Check")) h.health_secret

  abbrev allowed : Str → Bool
  allowed host = any (str_eq (normalize_host h.host_text host)) h.admin_hosts

  -- isAdminHost
  unfoldable pub is_admin_host : HttpRequest → Bool
  unfolding normalize_host
  is_admin_host r = elim h.admin_hosts [
    | [] ↦ true
    | host ∷ hosts ↦ allowed r.host || allowed (header_get r (codes "X-Forwarded-Host"))
  ]

  -- what follows Store
  abbrev pub classified : Result Error Request × World → Served × World
  classified (ok req, w) =
      (answered catch_all, (classify h.classifying req (subject_from_request h.unmarshal req) w).1)
  classified (err panic, w) = (aborted, w)
  classified (err e, w) = (answered catch_all, w)

  -- the part of ServeHTTP that captures
  unfoldable pub capture : ℕ → HttpRequest → World → Served × World
  unfolding store subject_from_request classify
  capture now r w = classified (store h.capturing now r w)

  abbrev answer : Response × World → Served × World
  answer (response, w) = (answered response, w)

  -- ServeHTTP
  unfoldable pub serve_http : ℕ → HttpRequest → World → Served × World
  unfolding is_health_probe is_admin_host capture
  serve_http now r w =
      if is_health_probe r
      then (answered probe_answer, w)
      else if has_prefix r.path (codes "/admin") && is_admin_host r
      then answer (h.admin r w)
      else capture now r w
