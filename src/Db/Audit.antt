-- ===== src/Db/Audit.antt =====
-- db.py `record_audit` and service/audit.py `record`. The insert meets no constraint, so that the
-- handler that swallows its exceptions has nothing to do here; unknown actions are recorded too.
use markland.Prelude.{String, Option, List, [], ◌∷◌, ◌++◌}
use markland.Model.{AuditRow, Meta, Principal, Db, Fresh}
use markland.Effects.{Action, ◌>>◌, write, commit}

abbrev pub append_audit : AuditRow → Db → Db
append_audit row db = record db { audit_log = db.audit_log ++ row ∷ [] }

abbrev pub audit_row : Fresh → String → Principal → Option String → List (String × Meta) → AuditRow
audit_row fresh action principal doc_id metadata = record {
  doc_id = doc_id;
  action = action;
  principal_id = principal.principal_id;
  principal_type = principal.principal_type;
  metadata = metadata;
  created_at = fresh.now;
}

unfoldable pub record_audit :
    Fresh → String → Principal → Option String → List (String × Meta) → Action (Unit {0})
record_audit fresh action principal doc_id metadata = do
  write (append_audit (audit_row fresh action principal doc_id metadata))
  commit
