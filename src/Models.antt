-- ===== src/Models.antt =====
-- internal/models/models.go: the rows of the database. Identifiers are the positive numbers that
-- AUTOINCREMENT gives; NULL is `none`; a time is the RFC 3339 text that is stored.
use ooblivion.Shared.{ℕ, ℤ, Str, Bool, Option}

pub record Request : Type 0 where
  pub id : ℕ
  pub method : Str
  pub scheme : Str
  pub host : Str
  pub path : Str
  pub query : Str
  pub http_version : Str
  pub request_headers : Str
  pub body : Str
  pub body_truncated : Bool
  pub source_ip : Str
  pub remote_addr : Str
  pub forwarded_for : Str
  pub user_agent : Str
  pub content_type : Str
  pub ip_country : Str
  pub saved : Bool
  pub scope_id : Option ℕ
  pub notified : Bool
  pub created_at : Str

pub record Scope : Type 0 where
  pub id : ℕ
  pub name : Str
  pub match_on : Str
  pub match_type : Str
  pub pattern : Str
  pub header_name : Option Str
  pub enabled : Bool
  pub priority : ℤ
  pub created_at : Str
  pub updated_at : Str

pub record NotificationRule : Type 0 where
  pub id : ℕ
  pub name : Str
  pub match_on : Str
  pub match_type : Str
  pub pattern : Str
  pub header_name : Option Str
  pub enabled : Bool
  pub created_at : Str
  pub updated_at : Str

pub record NotificationLog : Type 0 where
  pub id : ℕ
  pub rule_id : Option ℕ
  pub request_id : Option ℕ
  pub ok : Bool
  pub response : Str
  pub sent_at : Str

pub record AuditEntry : Type 0 where
  pub id : ℕ
  pub actor : Str
  pub action : Str
  pub detail : Str
  pub ip : Str
  pub created_at : Str

pub record Stats : Type 0 where
  pub total : ℕ
  pub saved : ℕ
  pub today : ℕ
  pub scope_count : ℕ
  pub rule_count : ℕ
  pub last_flush_at : Str
