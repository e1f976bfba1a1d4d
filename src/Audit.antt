-- ===== src/Audit.antt =====
-- backend/app/services/audit.py: the audit trail, written in the caller's transaction.
use doc_grading.Prelude.{ℕ, String, Option, none, some, [], ◌∷◌, ◌++◌}
use doc_grading.Models.Json.{Fields}
use doc_grading.Models.Rows.{AuditEvent}
use doc_grading.Models.Db.{Db}
use doc_grading.Models.Tx.{Tx, modify}

-- `db.add(event)`
abbrev pub add_event : AuditEvent → Db → Db
add_event e db = record db { audit_events = db.audit_events ++ (e ∷ []) }

-- resource type, its id, action, before, after and reason
unfoldable pub record_system_audit :
    String → ℕ → String → Option Fields → Option Fields → String → Tx (Unit {0})
record_system_audit type id action before after reason = modify (
    add_event (record {
      resource_type = type;
      resource_id = id;
      action = action;
      actor_user_id = none;
      before = before;
      after = after;
      reason = reason;
    }))

-- the same after the acting user
unfoldable pub record_audit :
    ℕ → String → ℕ → String → Option Fields → Option Fields → String → Tx (Unit {0})
record_audit actor type id action before after reason = modify (
    add_event (record {
      resource_type = type;
      resource_id = id;
      action = action;
      actor_user_id = some actor;
      before = before;
      after = after;
      reason = reason;
    }))
