-- ===== src/Tenant/Client.antt =====
-- The tenant-scoped client that the services use: each operation is scoped, then run.
use runboard.Prelude.{
  ℕ, ◌≡◌, true, Bool, Option, none, some, List, [], ◌∷◌, ◌++◌, find, keep, count, change, any, not,
  Bool-cases, Option-cases, inl, inr, if◌then◌else◌,
}
use runboard.Schema.{Uuid, Db}
use runboard.Exec.{ok, err, Tx, unique_violation, internal, require}
use runboard.Exec.{◌>>=◌, ◌>>◌, pure, gets}
use runboard.Context.{RequestContext, organization_of}
use runboard.Prisma.{Prisma}
use runboard.Tenant.{
  Table, Query, create, create_many, read, update, delete, tenant_models, within, all_operations,
  write, answer_one, answer_many, answer_count, missing_tenant_context, apply_tenant_scope,
}

module _ (prisma : Prisma) (ctx : Option RequestContext) {Row : Type 0} (table : Table Row) where
  scope : Query Row → Tx (Query Row)
  scope query db = (all_operations table ctx query, db)

  save : Option (List Row) → Tx (Unit {0})
  save none db = (err unique_violation, db)
  save (some rows) db = (ok tt, table.set_rows rows db)

  run_write : Query Row → Tx (Unit {0})
  run_write query db = save (write prisma table query (table.rows db)) db

  -- `findUnique`, `findFirst`
  unfoldable pub find_unique : (Row → Bool) → Tx (Option Row)
  unfolding scope
  find_unique where_ = do
    query ← scope (read where_)
    gets (λ db. answer_one prisma table query (table.rows db))

  -- `findMany` with no order
  unfoldable pub find_many : (Row → Bool) → Tx (List Row)
  unfolding scope
  find_many where_ = do
    query ← scope (read where_)
    gets (λ db. answer_many prisma table query (table.rows db))

  unfoldable pub count_rows : (Row → Bool) → Tx ℕ
  unfolding scope
  count_rows where_ = do
    query ← scope (read where_)
    gets (λ db. answer_count prisma table query (table.rows db))

  -- `create`
  unfoldable pub create_row : Row → Tx (Unit {0})
  unfolding scope run_write save
  create_row row = do query ← scope (create row); run_write query

  -- The row as it was created.
  abbrev pub created : Row → Row
  created row = elim (organization_of ctx) [
    | none ↦ row
    | some organization_id ↦ table.with_org organization_id row
  ]

  unfoldable pub create_rows : List Row → Tx (Unit {0})
  unfolding scope run_write save
  create_rows rows = do query ← scope (create_many rows); run_write query

  -- `update`: P2025, no row to update, reaches the client as 500 INTERNAL_ERROR.
  unfoldable pub update_row : (Row → Bool) → (Row → Row) → Tx Row
  unfolding scope run_write save
  update_row where_ change_ = do
    query ← scope (update where_ change_)
    row ← λ db. require internal (answer_one prisma table query (table.rows db)) db
    run_write query
    pure (change_ row)

  -- `delete` of a row that is there, and `deleteMany`
  unfoldable pub delete_rows : (Row → Bool) → Tx (Unit {0})
  unfolding scope run_write save
  delete_rows where_ = do query ← scope (delete where_); run_write query

-- What each operation does inside an organisation, and what all do outside one.
module _ (prisma : Prisma) (ctx : Option RequestContext) {Row : Type 0} (table : Table Row)
    (is_tenant : tenant_models table.model ≡ true) where
  scope_outside :
      (query : Query Row) (db : Db)
      → organization_of ctx ≡ none
      → scope prisma ctx table query db ≡ (err missing_tenant_context, db)
  unfolding scope all_operations
  scope_outside query db outside = rw (is_tenant, outside)

  module _ {org : Uuid} (inside : organization_of ctx ≡ some org) (db : Db) where
    scope_inside :
        (query : Query Row)
        → scope prisma ctx table query db ≡ (ok (apply_tenant_scope table query org), db)
    unfolding scope all_operations
    scope_inside query = rw (is_tenant, inside)

    pub find_unique_lem :
        (where_ : Row → Bool)
        → find_unique prisma ctx table where_ db
          ≡ (ok (find (within table org where_) (table.rows db)), db)
    unfolding find_unique all_operations
    find_unique_lem where_ = rw (is_tenant, inside) (rw prisma.find_one_lem)

    pub find_many_lem :
        (where_ : Row → Bool)
        → find_many prisma ctx table where_ db
          ≡ (ok (keep (within table org where_) (table.rows db)), db)
    unfolding find_many all_operations
    find_many_lem where_ = rw (is_tenant, inside) (rw prisma.find_many_lem)

    pub count_rows_lem :
        (where_ : Row → Bool)
        → count_rows prisma ctx table where_ db
          ≡ (ok (count (within table org where_) (table.rows db)), db)
    unfolding count_rows all_operations
    count_rows_lem where_ = rw (is_tenant, inside) (rw prisma.count_rows_lem)

    pub delete_rows_lem :
        (where_ : Row → Bool)
        → delete_rows prisma ctx table where_ db
          ≡ (ok tt, table.set_rows (keep (λ r. not (within table org where_ r)) (table.rows db)) db)
    unfolding delete_rows all_operations
    delete_rows_lem where_ = rw (is_tenant, inside) (rw prisma.delete_lem)

    pub create_row_lem :
        (row : Row)
        → create_row prisma ctx table row db ≡ (
            if any (table.clash (table.with_org org row)) (table.rows db)
            then (err unique_violation, db)
            else (ok tt, table.set_rows (table.rows db ++ table.with_org org row ∷ []) db))
    unfolding create_row all_operations
    create_row_lem row =
        elim (Bool-cases (any (table.clash (table.with_org org row)) (table.rows db))) [
          | inl clashes ↦ rw (is_tenant, inside) (rw prisma.create_lem (rw clashes))
          | inr fresh ↦ rw (is_tenant, inside) (rw prisma.create_lem (rw fresh))
        ]

    pub update_row_lem :
        (where_ : Row → Bool) (f : Row → Row)
        → update_row prisma ctx table where_ f db
          ≡ elim (find (within table org where_) (table.rows db)) [
            | none ↦ (err internal, db)
            | some row ↦
                (ok (f row), table.set_rows (change (within table org where_) f (table.rows db)) db)
          ]
    unfolding update_row all_operations
    update_row_lem where_ f = elim (Option-cases (find (within table org where_) (table.rows db))) [
      | inl missing ↦ rw (is_tenant, inside) (rw prisma.find_one_lem (rw missing))
      | inr (row, found) ↦
          rw (is_tenant, inside) (rw prisma.find_one_lem (rw found (rw prisma.update_lem)))
    ]
