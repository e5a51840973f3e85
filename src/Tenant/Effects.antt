-- ===== src/Tenant/Effects.antt =====
-- What the scoped operations reach inside an organisation.
use runboard.Prelude.{
  ◌≡◌, refl, sym, ap, ◌∙◌, subst, Bool, true, false, not, Option, none, some, List, [], ◌∷◌, ◌++◌,
  any, find, keep, count, map, ℕ, Bool-cases, inl, inr, ◌⊎◌,
}
use mathlib.Core.List.{append-nil, append_assoc}
use runboard.Prelude.Keys.{Distinct}
use runboard.Prelude.Updates.{Distinct-append}
use runboard.Schema.{Db}
use runboard.Exec.After.{Reaches}
use runboard.Context.{RequestContext, organization_of}
use runboard.Prisma.{Prisma}
use runboard.Tenant.{Table, tenant_models, within, create_all, all_operations}
use runboard.Tenant.Client.{
  find_unique, find_unique_lem, find_many, find_many_lem, count_rows, count_rows_lem, create_row,
  create_row_lem, create_rows, delete_rows, delete_rows_lem,
}

module _ (prisma : Prisma) (ctx : Option RequestContext) {Row : Type 0} (table : Table Row)
    (is_tenant : tenant_models table.model ≡ true) {org : ℕ}
    (inside : organization_of ctx ≡ some org) (db : Db) where
  pub find_unique-Reaches :
      (where_ : Row → Bool)
      → Reaches db
          (λ o. o ≡ find (within table org where_) (table.rows db))
          (find_unique prisma ctx table where_ db)
  find_unique-Reaches where_ =
      rw (find_unique_lem prisma ctx table is_tenant inside db) (refl, refl)

  pub find_many-Reaches :
      (where_ : Row → Bool)
      → Reaches db
          (λ rows. rows ≡ keep (within table org where_) (table.rows db))
          (find_many prisma ctx table where_ db)
  find_many-Reaches where_ = rw (find_many_lem prisma ctx table is_tenant inside db) (refl, refl)

  pub count_rows-Reaches :
      (where_ : Row → Bool)
      → Reaches db
          (λ n. n ≡ count (within table org where_) (table.rows db))
          (count_rows prisma ctx table where_ db)
  count_rows-Reaches where_ = rw (count_rows_lem prisma ctx table is_tenant inside db) (refl, refl)

  pub delete_rows-Reaches :
      (where_ : Row → Bool)
      → Reaches
          (table.set_rows (keep (λ r. not (within table org where_ r)) (table.rows db)) db)
          (λ _. Unit)
          (delete_rows prisma ctx table where_ db)
  delete_rows-Reaches where_ = rw (delete_rows_lem prisma ctx table is_tenant inside db) (refl, tt)

  pub create_row-Reaches :
      (row : Row)
      → Reaches
          (table.set_rows (table.rows db ++ table.with_org org row ∷ []) db)
          (λ _. any (table.clash (table.with_org org row)) (table.rows db) ≡ false)
          (create_row prisma ctx table row db)
  create_row-Reaches row =
      elim (Bool-cases (any (table.clash (table.with_org org row)) (table.rows db))) [
        | inl clashes ↦ rw (create_row_lem prisma ctx table is_tenant inside db) (rw clashes tt)
        | inr fresh ↦
            rw (create_row_lem prisma ctx table is_tenant inside db) (rw fresh (refl, refl))
      ]

-- `createMany`: all rows are added, in their order, or none.
module _ (prisma : Prisma) {Row : Type 0} (table : Table Row) (key : Row → ℕ)
    (keyed : (a b : Row) → key b ≡ key a → table.clash a b ≡ true) where
  pub create_all_cases :
      (news rows : List Row)
      → (create_all prisma table news rows ≡ none)
        ⊎ ((create_all prisma table news rows ≡ some (rows ++ news))
            × (Distinct key rows → Distinct key (rows ++ news)))
  create_all_cases [] rows = inr (ap some (sym (append-nil rows)), λ d. rw append-nil d)
  create_all_cases (new ∷ news) rows = elim (Bool-cases (any (table.clash new) rows)) [
    | inl clashes ↦ inl (rw (prisma.create_lem table.clash new rows, create_all) (rw clashes refl))
    | inr fresh ↦ elim (create_all_cases news (rows ++ new ∷ [])) [
      | inl failed ↦ inl (rw (prisma.create_lem table.clash new rows, create_all) (rw fresh failed))
      | inr (done, distinct) ↦ inr (
        rw (prisma.create_lem table.clash new rows, create_all)
            (rw fresh (done ∙ ap some (append_assoc rows (new ∷ []) news))),
        λ d.
            subst (Distinct key) (append_assoc rows (new ∷ []) news)
              (distinct (Distinct-append key new (table.clash new) (keyed new) rows fresh d)),
      )
    ]
  ]

  pub create_rows-After :
      (is_tenant : tenant_models table.model ≡ true) (ctx : Option RequestContext) {org : ℕ}
      (inside : organization_of ctx ≡ some org) (news : List Row) (db : Db)
      → Reaches
          (table.set_rows (table.rows db ++ map (table.with_org org) news) db)
          (λ _.
            Distinct key (table.rows db)
            → Distinct key (table.rows db ++ map (table.with_org org) news))
          (create_rows prisma ctx table news db)
  unfolding create_rows all_operations
  create_rows-After is_tenant ctx {org} inside news db =
      elim (create_all_cases (map (table.with_org org) news) (table.rows db)) [
        | inl failed ↦ rw (is_tenant, inside) (rw failed tt)
        | inr (done, distinct) ↦ rw (is_tenant, inside) (rw done (refl, distinct))
      ]
