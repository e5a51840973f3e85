-- ===== src/Audit.antt =====
-- backend/src/audit/audit.service.ts: entries written inside the transaction they tell of.
pub mod Diff
pub mod Query
use runboard.Prelude.{◌≡◌, refl, false, Bool, Option, none, some, List, [], ◌∷◌, ◌++◌, any, String}
use runboard.Schema.{Uuid, Db, AuditLog, AuditAction, AuditTargetType, Metadata}
use runboard.Exec.{Tx, ok, err, internal, unique_violation}
use runboard.Exec.After.{Reaches}
use runboard.Context.{RequestContext, organization_of, user_of}
use runboard.Prisma.{Prisma}

pub record RecordScopedParams : Type 0 where
  pub action : AuditAction
  pub target_type : AuditTargetType
  pub target_id : Option Uuid
  pub metadata : Metadata

pub record RecordGlobalParams : Type 0 where
  pub action : AuditAction
  pub target_type : AuditTargetType
  pub target_id : Option Uuid
  pub actor_id : Option Uuid
  pub actor_email : Option String
  pub metadata : Metadata

-- `ctx?.actorEmail`, `ctx?.ip`, `ctx?.userAgent`
abbrev field_of : (RequestContext → Option String) → Option RequestContext → Option String
field_of f none = none
field_of f (some store) = f store

abbrev pub scoped_entry : Option RequestContext → Uuid → RecordScopedParams → AuditLog
scoped_entry ctx organization_id params = record {
  organization_id = some organization_id;
  actor_id = user_of ctx;
  actor_email = field_of (λ s. s.actor_email) ctx;
  action = params.action;
  target_type = params.target_type;
  target_id = params.target_id;
  metadata = params.metadata;
  ip = field_of (λ s. s.ip) ctx;
  user_agent = field_of (λ s. s.user_agent) ctx;
}

abbrev pub global_entry : Option RequestContext → RecordGlobalParams → AuditLog
global_entry ctx params = record {
  organization_id = none;
  actor_id = params.actor_id;
  actor_email = params.actor_email;
  action = params.action;
  target_type = params.target_type;
  target_id = params.target_id;
  metadata = params.metadata;
  ip = field_of (λ s. s.ip) ctx;
  user_agent = field_of (λ s. s.user_agent) ctx;
}

-- A new entry has an id of its own, and no other column is unique.
abbrev no_clash : AuditLog → AuditLog → Bool
no_clash a b = false

module _ (prisma : Prisma) (ctx : Option RequestContext) where
  save_log : Option (List AuditLog) → Tx (Unit {0})
  save_log none db = (err unique_violation, db)
  save_log (some rows) db = (ok tt, record db { audit_logs = rows })

  create_log : AuditLog → Tx (Unit {0})
  create_log entry db = save_log (prisma.create no_clash entry db.audit_logs) db

  record_in : RecordScopedParams → Option Uuid → Tx (Unit {0})
  record_in params none db = (err internal, db)
  record_in params (some organization_id) db =
      create_log (scoped_entry ctx organization_id params) db

  -- `record`: without an organisation it throws a plain Error.
  unfoldable pub record_scoped : RecordScopedParams → Tx (Unit {0})
  unfolding record_in create_log save_log
  record_scoped params = record_in params (organization_of ctx)

  -- `recordGlobal`
  unfoldable pub record_global : RecordGlobalParams → Tx (Unit {0})
  unfolding create_log save_log
  record_global params = create_log (global_entry ctx params)

any-no_clash : (entry : AuditLog) (rows : List AuditLog) → any (no_clash entry) rows ≡ false
any-no_clash entry [] = refl
any-no_clash entry (r ∷ rows) = any-no_clash entry rows

module _ (prisma : Prisma) (ctx : Option RequestContext) (db : Db) where
  pub record_scoped_lem :
      {org : Uuid} (params : RecordScopedParams)
      → organization_of ctx ≡ some org
      → record_scoped prisma ctx params db
        ≡ (ok tt, record db { audit_logs = db.audit_logs ++ scoped_entry ctx org params ∷ [] })
  unfolding record_scoped
  record_scoped_lem params inside =
      rw inside (rw prisma.create_lem (rw (any-no_clash _ db.audit_logs)))

  pub record_global_lem :
      (params : RecordGlobalParams)
      → record_global prisma ctx params db
        ≡ (ok tt, record db { audit_logs = db.audit_logs ++ global_entry ctx params ∷ [] })
  unfolding record_global
  record_global_lem params = rw prisma.create_lem (rw (any-no_clash _ db.audit_logs))

  pub record_scoped-Reaches :
      {org : Uuid} (params : RecordScopedParams)
      → organization_of ctx ≡ some org
      → Reaches
          (record db { audit_logs = db.audit_logs ++ scoped_entry ctx org params ∷ [] })
          (λ _. Unit)
          (record_scoped prisma ctx params db)
  record_scoped-Reaches params inside = rw (record_scoped_lem params inside) (refl, tt)
