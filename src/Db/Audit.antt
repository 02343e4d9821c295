-- ===== src/Db/Audit.antt =====
-- INSERT INTO audit_log, which logAudit of internal/admin/handlers_auth.go and Flush of
-- internal/scheduler/scheduler.go use.
use ooblivion.Shared.{ℕ, suc, Str, codes, Option, some, [], ◌∷◌, ◌++◌}
use ooblivion.Models.{AuditEntry}
use ooblivion.Db.{Tables}

abbrev pub audit_entry : ℕ → Str → Str → Str → Str → AuditEntry
audit_entry id action detail ip created_at = record {
  id = id;
  actor = codes "admin";
  action = action;
  detail = detail;
  ip = ip;
  created_at = created_at;
}

unfoldable pub insert_audit : Str → Str → Str → Str → Tables → Option (Unit {0} × Tables)
insert_audit action detail ip created_at t = some (
  tt,
  record t {
    audit_log = t.audit_log ++ audit_entry (suc t.last_audit) action detail ip created_at ∷ [];
    last_audit = suc t.last_audit;
  },
)
