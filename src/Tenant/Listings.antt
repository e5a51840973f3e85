-- ===== src/Tenant/Listings.antt =====
-- The scoped operations that answer with ordered rows, with pages of them and with groups.
use runboard.Prelude.{
  ℕ, zero, suc, ◌==◌, ◌≡◌, refl, ltb, Bool, true, Option, none, some, List, [], ◌∷◌, length,
  if◌then◌else◌,
}
use runboard.Schema.{Uuid, Time, Db}
use runboard.Exec.{Tx, ok, ◌>>=◌, gets, pure}
use runboard.Context.{RequestContext, organization_of}
use runboard.Prisma.{Prisma}
use runboard.Tenant.{Table, Query, read, tenant_models, within, all_operations}

module _ {Row : Type 0} where
  abbrev pub take : ℕ → List Row → List Row
  take zero rows = []
  take (suc n) [] = []
  take (suc n) (r ∷ rows) = r ∷ take n rows

  -- `cursor: { id }, skip: 1`: the rows that follow the one with the id; none if it is not there.
  abbrev pub after_row : (Row → Uuid) → Uuid → List Row → List Row
  after_row id cursor [] = []
  after_row id cursor (r ∷ rows) = if id r == cursor then rows else after_row id cursor rows

  abbrev pub after_cursor : (Row → Uuid) → Option Uuid → List Row → List Row
  after_cursor id none rows = rows
  after_cursor id (some cursor) rows = after_row id cursor rows

  abbrev pub last_id : (Row → Uuid) → Row → List Row → Uuid
  last_id id r [] = id r
  last_id id r (r' ∷ rows) = last_id id r' rows

  -- `page[page.length - 1].id`, of a page that is not empty
  abbrev pub last_of : (Row → Uuid) → List Row → Option Uuid
  last_of id [] = none
  last_of id (r ∷ rows) = some (last_id id r rows)

-- A condition of a `where` that is undefined is no condition.
abbrev pub asked {ℓ} : {A : Type ℓ} → Option A → (A → Bool) → Bool
asked none p = true
asked (some a) p = p a

pub record Page (A : Type 0) : Type 0 where
  pub items : List A
  pub next_cursor : Option Uuid

-- What every list makes of the `take + 1` rows that it has asked for.
abbrev pub page_of : {Row : Type 0} → (Row → Uuid) → ℕ → List Row → Page Row
page_of id n rows =
    let has_more = ltb n (length rows) in
    let page = if has_more then take n rows else rows in
    record { items = page; next_cursor = if has_more then last_of id page else none }

module _ (prisma : Prisma) (ctx : Option RequestContext) {Row : Type 0} (table : Table Row) where
  scoped : Query Row → Tx (Query Row)
  scoped query db = (all_operations table ctx query, db)

  ordered_rows : (Row → Time) → Query Row → List Row → List Row
  ordered_rows at (read where_) rows = prisma.find_ordered at where_ rows
  ordered_rows at _ rows = []

  grouped_rows : (Row → ℕ) → Query Row → List Row → List (ℕ × List Row)
  grouped_rows key (read where_) rows = prisma.group_by key where_ rows
  grouped_rows key _ rows = []

  -- `findMany({ where, orderBy: { …: 'desc' } })`
  unfoldable pub find_ordered : (Row → Time) → (Row → Bool) → Tx (List Row)
  unfolding scoped ordered_rows
  find_ordered at where_ = do
    query ← scoped (read where_)
    gets (λ db. ordered_rows at query (table.rows db))

  -- `findMany({ where, orderBy, take, cursor, skip })`
  abbrev pub find_page :
      (Row → Time)
      → (Row → Bool)
      → (Row → Uuid)
      → (take : ℕ) → (cursor : Option Uuid) → Tx (List Row)
  find_page at where_ id n cursor = do
    rows ← find_ordered at where_
    pure (take n (after_cursor id cursor rows))

  -- `groupBy({ by, where })`
  unfoldable pub group_by : (Row → ℕ) → (Row → Bool) → Tx (List (ℕ × List Row))
  unfolding scoped grouped_rows
  group_by key where_ = do
    query ← scoped (read where_)
    gets (λ db. grouped_rows key query (table.rows db))

module _ (prisma : Prisma) (ctx : Option RequestContext) {Row : Type 0} (table : Table Row)
    (is_tenant : tenant_models table.model ≡ true) {org : Uuid}
    (inside : organization_of ctx ≡ some org) (db : Db) where
  pub find_ordered_lem :
      (at : Row → Time) (where_ : Row → Bool)
      → find_ordered prisma ctx table at where_ db
        ≡ (ok (prisma.find_ordered at (within table org where_) (table.rows db)), db)
  unfolding find_ordered all_operations
  find_ordered_lem at where_ = rw (is_tenant, inside) refl

  pub group_by_lem :
      (key : Row → ℕ) (where_ : Row → Bool)
      → group_by prisma ctx table key where_ db
        ≡ (ok (prisma.group_by key (within table org where_) (table.rows db)), db)
  unfolding group_by all_operations
  group_by_lem key where_ = rw (is_tenant, inside) refl
