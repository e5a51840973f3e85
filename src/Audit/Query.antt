-- ===== src/Audit/Query.antt =====
-- backend/src/audit/audit-query.service.ts: the audit log as it is read. The model is not a tenant
-- model, so `list` names the organisation itself. The id and the creation time of an entry, which
-- the database fills in, are parameters.
use runboard.Prelude.{ℕ, ◌+◌, ◌==◌, leb, Bool, false, ◌&&◌, String, Option, none, some}
use runboard.Prelude.Keys.{Distinct}
use runboard.Schema.{
  Uuid, Time, AuditAction, action_index, AuditTargetType, target_index, AuditLog, Metadata,
}
use runboard.Exec.{Tx, ◌>>=◌, gets, pure}
use runboard.Prisma.{Prisma}
use runboard.Tenant.Listings.{asked, take, after_cursor, Page, page_of}
use runboard.Tenant.Pages.{map_page}

pub record ListAuditLogsDto : Type 0 where
  pub take : ℕ
  pub action : Option AuditAction
  pub actor_id : Option Uuid
  pub target_type : Option AuditTargetType
  pub target_id : Option Uuid
  pub from : Option Time
  pub until : Option Time

-- A column that may be null against a value.
abbrev pub is_id : Option Uuid → Uuid → Bool
is_id none id = false
is_id (some a) id = a == id

module _ (id_of : AuditLog → Uuid) (created : AuditLog → Time) where
  pub record AuditItem : Type 0 where
    pub id : Uuid
    pub action : AuditAction
    pub actor : Option (Uuid × Option String)
    pub target_type : AuditTargetType
    pub target_id : Option Uuid
    pub metadata : Metadata
    pub ip : Option String
    pub created_at : Time

  abbrev pub shown : AuditLog → AuditItem
  shown log = record {
    id = id_of log;
    action = log.action;
    actor = elim log.actor_id [ none ↦ none | some id ↦ some (id, log.actor_email) ];
    target_type = log.target_type;
    target_id = log.target_id;
    metadata = log.metadata;
    ip = log.ip;
    created_at = created log;
  }

  abbrev pub listed : Uuid → ListAuditLogsDto → AuditLog → Bool
  listed organization_id query log =
      is_id log.organization_id organization_id
      && asked query.action (λ action. action_index log.action == action_index action)
      && asked query.actor_id (is_id log.actor_id)
      && asked query.target_type (λ type. target_index log.target_type == target_index type)
      && asked query.target_id (is_id log.target_id)
      && asked query.from (λ time. leb time (created log))
      && asked query.until (λ time. leb (created log) time)

  unfoldable pub list :
      Prisma → Uuid → ListAuditLogsDto → (cursor : Option Uuid) → Tx (Page AuditItem)
  list prisma organization_id query cursor = do
    items ← gets λ db. take (query.take + 1) (
        after_cursor id_of cursor
          (prisma.find_ordered created (listed organization_id query) db.audit_logs))
    pure (map_page shown (page_of id_of query.take items))
