-- ===== src/Bugs/Resolution.antt =====
-- The moment of resolution of a bug report.
use runboard.Prelude.{
  ◌≡◌, ◌≢◌, refl, ap, ◌∙◌, ◌==◌, Bool, true, Option, none, some, String, inl, inr, find, change,
  All, Bool-cases, Option-cases, if◌then◌else◌, arith,
}
use runboard.Prelude.Keys.{Distinct, All-change}
use runboard.Schema.{Uuid, Time, Db, BugStatus, BugReport}
use runboard.Exec.{Result, ok, err}
use runboard.Context.{RequestContext, organization_of}
use runboard.Prisma.{Prisma, settle}
use runboard.Floats.{Floats}
use runboard.Tenant.{within}
use runboard.Tenant.Tables.{bugs}
use runboard.Tenant.Client.{find_unique_lem, update_row_lem}
use runboard.Audit.{record_scoped_lem}
use runboard.Dto.{Json, replaced}
use runboard.Bugs.{
  UpdateBugDto, is_resolved, newly_resolved, change_bug, update_tx, update, tell_updated,
  after_update, update_in,
}

-- A bug that is resolved says when.
abbrev pub HasResolution : BugReport → Type 0
HasResolution b = is_resolved b.status ≡ true → b.resolved_at ≢ none

abbrev moment : Option BugStatus → BugStatus → Time → Option Time
moment status old now = if newly_resolved status old then some now else none

change_bug-HasResolution :
    (dto : UpdateBugDto) (now : Time) (b : BugReport)
    → HasResolution b
    → HasResolution (change_bug dto (moment dto.status b.status now) b)
change_bug-HasResolution dto now b h = go dto.status b.status b.resolved_at h
  where
    go :
        (status : Option BugStatus) (old : BugStatus) (at : Option Time)
        → (is_resolved old ≡ true → at ≢ none)
        → is_resolved (replaced status old) ≡ true
        → (elim (moment status old now) [ none ↦ at | some t ↦ some t ]) ≢ none
    go none old at h r = h r
    go (some status) old at h r = elim (Bool-cases (is_resolved old)) [
      | inl was ↦ rw (r, was) (h was)
      | inr was_not ↦ rw (r, was_not) (λ e. cc)
    ]

module _ (floats : Floats) (prisma : Prisma) (ctx : Option RequestContext) (user_id : Uuid) where
  tell_updated-db :
      (org : Uuid) (bug : BugReport) (db : Db) (name : Option String)
      → (tell_updated floats prisma ctx user_id org bug db name).1 ≡ db
  unfolding tell_updated
  tell_updated-db org bug db none = refl
  tell_updated-db org bug db (some name) = refl

  after_update-db :
      (org : Uuid) (r : Result BugReport) (db : Db)
      → (after_update floats prisma ctx user_id org r db).1 ≡ db
  unfolding after_update
  after_update-db org (err e) db = refl
  after_update-db org (ok bug) db = tell_updated-db org bug db _

  module _ {org : Uuid} (inside : organization_of ctx ≡ some org) (json : Json) (now : Time)
      (bug_id : Uuid) (dto : UpdateBugDto) (db : Db) where
    abbrev is_bug : BugReport → Bool
    is_bug = within bugs org (λ b. b.id == bug_id)

    is_bug-id : (b : BugReport) → is_bug b ≡ true → b.id ≡ bug_id
    is_bug-id b h = ground arith

    db-update :
        (update floats prisma ctx user_id json now bug_id dto db).1
        ≡ (settle db (update_tx prisma ctx json now bug_id dto db)).1
    unfolding update update_in
    db-update = rw inside (
        after_update-db org _ _
        ∙ ap (λ (s : Result BugReport × Db). s.1)
            (prisma.transaction_lem (update_tx prisma ctx json now bug_id dto) db))

    tx_missing :
        find is_bug db.bugs ≡ none
        → (settle db (update_tx prisma ctx json now bug_id dto db)).1 ≡ db
    unfolding update_tx
    tx_missing missing = rw (find_unique_lem prisma ctx bugs refl inside db) (rw missing refl)

    tx_found :
        (existing : BugReport)
        → find is_bug db.bugs ≡ some existing
        → (settle db (update_tx prisma ctx json now bug_id dto db)).1.bugs
          ≡ change is_bug (change_bug dto (moment dto.status existing.status now)) db.bugs
    unfolding update_tx
    tx_found existing found = rw (find_unique_lem prisma ctx bugs refl inside db) (
        rw found (
          rw (update_row_lem prisma ctx bugs refl inside db)
            (rw found (rw (record_scoped_lem prisma ctx _ _ inside) refl))))

    -- If every resolved bug says when it was resolved, each does so after an update, whatever it
    -- asks for.
    pub update-HasResolution :
        Distinct (λ (b : BugReport). b.id) db.bugs
        → All HasResolution db.bugs
        → All HasResolution (update floats prisma ctx user_id json now bug_id dto db).1.bugs
    update-HasResolution distinct h = elim (Option-cases (find is_bug db.bugs)) [
      | inl missing ↦ rw db-update (rw (tx_missing missing) h)
      | inr (existing, found) ↦ rw db-update (
          rw (tx_found existing found) (
            All-change (λ b. b.id) is_bug bug_id is_bug-id {P = HasResolution} {Q = HasResolution}
              (change_bug dto (moment dto.status existing.status now)) db.bugs existing distinct
              found (change_bug-HasResolution dto now existing) (λ b ne k. k) h))
    ]
