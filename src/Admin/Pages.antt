-- ===== src/Admin/Pages.antt =====
-- What the handlers of internal/admin give to the templates and to the JSON encoder: the maps that
-- they build for `render` and `writeJSON`, as records, without constant titles and
-- the constant list of methods. The HTML of internal/web is not modelled.
use ooblivion.Shared.{ℕ, ℤ, Str, Bool, List}
use ooblivion.Models.{Request, Scope, NotificationRule, AuditEntry}
use ooblivion.Admin.Pagination.{PaginationData}

-- listResponse
pub record ListResponse : Type 0 where
  pub items : List Request
  pub page : ℤ
  pub per_page : ℕ
  pub total : ℕ
  pub has_next : Bool

-- what handleGetSettings answers
pub record SettingsAnswer : Type 0 where
  pub public_url : Str
  pub retention_days : ℤ
  pub auto_flush_enabled : Bool
  pub telegram_enabled : Bool
  pub last_flush_at : Str

pub record RequestsPage : Type 0 where
  pub items : List Request
  pub total : ℕ
  pub hosts : List Str
  pub countries : List Str
  pub q : Str
  pub method : Str
  pub host : Str
  pub saved : Str
  pub country : Str
  pub pagination : PaginationData

-- `hidden_reason` and `body_size` are empty where the body is shown
pub record DetailPage : Type 0 where
  pub request : Request
  pub headers : List (Str × Str)
  pub headers_present : Bool
  pub body_hidden : Bool
  pub hidden_reason : Str
  pub body_size : Str

pub record SettingsPage : Type 0 where
  pub public_url : Str
  pub retention_days : ℤ
  pub auto_flush : Bool
  pub telegram_token : Bool
  pub telegram_chat_id : Str
  pub telegram_thread_id : Str
  pub last_flush_at : Str

pub record AuditPage : Type 0 where
  pub items : List AuditEntry
  pub pagination : PaginationData
  pub ip : Str
  pub action : Str
  pub failed : Bool
  pub actions : List Str

-- the templates, with their data
pub data Page : Type 0 where
  login_form : Page
  dashboard : Page
  requests_page : RequestsPage → Page
  detail_page : DetailPage → Page
  scopes_page : List Scope → Page
  notifications_page : List NotificationRule → Bool → Page
  settings_page : SettingsPage → Page
  audit_page : AuditPage → Page

-- what `render` adds to the data of a page
pub record Rendered : Type 0 where
  pub page : Page
  pub authed : Bool
  pub version : Str
  pub active : Str

pub record Download : Type 0 where
  pub filename : Str
  pub content : Str
