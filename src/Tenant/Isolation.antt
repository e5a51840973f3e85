-- ===== src/Tenant/Isolation.antt =====
-- backend/src/prisma/tenant.extension.ts: the rows that a scoped query can read and write.
use runboard.Prelude.{
  ◌≡◌, refl, true, Bool, Option, some, List, [], ◌∷◌, ◌++◌, map, find, keep, change, not, All,
  Option-cases, inl, inr, ◌∙◌, arith, ◌==◌, eq_of_==,
}
use runboard.Schema.{Uuid}
use runboard.Exec.{ok}
use runboard.Context.{RequestContext, organization_of}
use runboard.Prisma.{Prisma}
use runboard.Tenant.{
  Table, Query, create, create_many, upsert, read, update, delete, tenant_models, within, write,
  create_all, answer_many, all_operations, apply_tenant_scope,
}

module _ {Row : Type 0} (table : Table Row) (org : Uuid) where
  abbrev pub is_foreign : Row → Bool
  is_foreign row = not (table.org row == org)

  -- Writing the organisation column writes it.
  abbrev pub IsLawful : Type 0
  IsLawful = (row : Row) → table.org (table.with_org org row) ≡ org

  -- The data of an update does not name another organisation.
  abbrev pub KeepsOrg : Query Row → Type 0
  KeepsOrg (update _ f) = (row : Row) → table.org (f row) ≡ table.org row
  KeepsOrg (upsert _ _ f) = (row : Row) → table.org (f row) ≡ table.org row
  KeepsOrg _ = Unit

  keep-change :
      (where_ : Row → Bool) (f : Row → Row) (rows : List Row)
      → ((row : Row) → table.org (f row) ≡ table.org row)
      → keep is_foreign (change (within table org where_) f rows) ≡ keep is_foreign rows
  keep-change where_ f [] same = refl
  keep-change where_ f (r ∷ rows) same =
      ground (arith, keep-change where_ f rows same, same r, eq_of_== (table.org r) org)

  keep-delete :
      (where_ : Row → Bool) (rows : List Row)
      → keep is_foreign (keep (λ r. not (within table org where_ r)) rows) ≡ keep is_foreign rows
  keep-delete where_ [] = refl
  keep-delete where_ (r ∷ rows) = ground (arith, keep-delete where_ rows)

  keep-own :
      (row : Row) (rows : List Row)
      → table.org row ≡ org
      → keep is_foreign (rows ++ row ∷ []) ≡ keep is_foreign rows
  keep-own row [] own = ground arith
  keep-own row (r ∷ rows) own = ground (arith, keep-own row rows own)

  own_of_keep :
      (where_ : Row → Bool) (rows : List Row)
      → All (λ r. table.org r ≡ org) (keep (within table org where_) rows)
  own_of_keep where_ [] = tt
  own_of_keep where_ (r ∷ rows) = ground (arith, own_of_keep where_ rows)

  own_of_find :
      (where_ : Row → Bool) (rows : List Row) (row : Row)
      → find (within table org where_) rows ≡ some row
      → table.org row ≡ org
  own_of_find where_ [] row h = cc
  own_of_find where_ (r ∷ rows) row h = ground (arith, own_of_find where_ rows row)

  module _ (prisma : Prisma) (lawful : IsLawful) where
    create_isolated :
        (row : Row) (rows rows' : List Row)
        → table.org row ≡ org
        → prisma.create table.clash row rows ≡ some rows'
        → keep is_foreign rows' ≡ keep is_foreign rows
    create_isolated row rows rows' own h =
        ground (arith, prisma.create_lem table.clash row rows, keep-own row rows own)

    create_all_isolated :
        (news rows rows' : List Row)
        → create_all prisma table (map (table.with_org org) news) rows ≡ some rows'
        → keep is_foreign rows' ≡ keep is_foreign rows
    create_all_isolated [] rows rows' h = ground arith
    create_all_isolated (new ∷ news) rows rows' h =
        let row = table.with_org org new in
        elim (Option-cases (prisma.create table.clash row rows)) [
          | inl clashes ↦ ground arith
          | inr (mid, made) ↦
              create_all_isolated news mid rows' (ground arith)
              ∙ create_isolated row rows mid (lawful new) made
        ]

    write_isolated :
        (query : Query Row) (rows rows' : List Row)
        → KeepsOrg query
        → write prisma table (apply_tenant_scope table query org) rows ≡ some rows'
        → keep is_foreign rows' ≡ keep is_foreign rows
    write_isolated (create row) rows rows' k h = create_isolated _ rows rows' (lawful row) h
    write_isolated (create_many news) rows rows' k h = create_all_isolated news rows rows' h
    write_isolated (upsert where_ row f) rows rows' k h =
        elim (Option-cases (prisma.find_one (within table org where_) rows)) [
          | inl missing ↦ create_isolated _ rows rows' (lawful row) (ground arith)
          | inr (old, found) ↦ ground (
            arith,
            prisma.update_lem (within table org where_) f rows,
            keep-change where_ f rows k,
          )
        ]
    write_isolated (read where_) rows rows' k h = ground arith
    write_isolated (update where_ f) rows rows' k h =
        ground
          (arith, prisma.update_lem (within table org where_) f rows, keep-change where_ f rows k)
    write_isolated (delete where_) rows rows' k h =
        ground (arith, prisma.delete_lem (within table org where_) rows, keep-delete where_ rows)

module _ (prisma : Prisma) (ctx : Option RequestContext) {Row : Type 0} (table : Table Row)
    {org : Uuid} (is_tenant : tenant_models table.model ≡ true)
    (inside : organization_of ctx ≡ some org) where
  scoped :
      (query scoped_query : Query Row)
      → all_operations table ctx query ≡ ok scoped_query
      → apply_tenant_scope table query org ≡ scoped_query
  unfolding all_operations
  scoped query scoped_query h = ground arith

  -- A write that the extension lets through, of a request inside `org`, leaves the rows of all
  -- other organisations as they were, in their order, whatever operation it is; an update must
  -- not itself write the organisation column.
  pub tenant_write_isolated :
      (lawful : IsLawful table org) (query scoped_query : Query Row) (rows rows' : List Row)
      → KeepsOrg table org query
      → all_operations table ctx query ≡ ok scoped_query
      → write prisma table scoped_query rows ≡ some rows'
      → keep (is_foreign table org) rows' ≡ keep (is_foreign table org) rows
  tenant_write_isolated lawful query scoped_query rows rows' k h w =
      write_isolated table org prisma lawful query rows rows' k (rw (scoped query scoped_query h) w)

  -- Whatever a read asks for, the extension answers it with rows of the request's organisation.
  pub tenant_read_isolated :
      (where_ : Row → Bool) (scoped_query : Query Row) (rows : List Row)
      → all_operations table ctx (read where_) ≡ ok scoped_query
      → All (λ r. table.org r ≡ org) (answer_many prisma table scoped_query rows)
  tenant_read_isolated where_ scoped_query rows h =
      rw (← scoped (read where_) scoped_query h)
        (rw prisma.find_many_lem (own_of_keep table org where_ rows))
