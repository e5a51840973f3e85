-- ===== src/Suites/Service/Outcome.antt =====
-- backend/src/suites/suites.service.ts: what `update` checks and what it changes.
use runboard.Prelude.{
  ◌≡◌, refl, ◌==◌, Bool, true, false, Option, none, some, List, ◌⊎◌, inl, inr, find, keep, change,
  any, map, Bool-cases, Option-cases, arith,
}
use runboard.Schema.{Uuid, Db, TestSuite}
use runboard.Exec.{Failure, ok, err, not_found_error}
use runboard.Context.{RequestContext, organization_of}
use runboard.Prisma.{Prisma}
use runboard.Tenant.{within}
use runboard.Tenant.Tables.{suites}
use runboard.Tenant.Client.{find_unique_lem, find_many_lem, update_row_lem}
use runboard.Audit.{record_scoped_lem}
use runboard.Dto.{Json}
use runboard.Suites.Rules.{SuiteEdge, creates_cycle, exceeds_max_depth}
use runboard.Suites.Service.{
  UpdateSuiteDto, edge_of, change_suite, checked_parent, assert_parent_is_usable, assert_usable_if,
  update_tx, update, bad_request,
}

abbrev pub edges_of : Uuid → List TestSuite → List SuiteEdge
edges_of org rows = map edge_of (keep (within suites org (λ s. true)) rows)

module _ (prisma : Prisma) (ctx : Option RequestContext) {org : Uuid}
    (inside : organization_of ctx ≡ some org) (db : Db) (s : Uuid) where
  -- A check that passes has found no cycle; one that fails leaves the database alone.
  assert_outcome :
      (p : Uuid)
      → ((e : Failure) × (assert_parent_is_usable prisma ctx p (some s) db ≡ (err e, db)))
        ⊎ ((assert_parent_is_usable prisma ctx p (some s) db ≡ (ok tt, db))
            × (creates_cycle (edges_of org db.suites) s p ≡ false))
  unfolding assert_parent_is_usable
  assert_outcome p =
      let edges = edges_of org db.suites in
      elim (Bool-cases (any (λ e. e.id == p) edges)) [
        | inr missing ↦
            inl (
              not_found_error,
              rw (find_many_lem prisma ctx suites refl inside db) (rw missing refl),
            )
        | inl exists ↦ elim (Bool-cases (creates_cycle edges s p)) [
          | inl cycle ↦ inl (
            bad_request,
            rw (find_many_lem prisma ctx suites refl inside db) (rw (exists, cycle) refl),
          )
          | inr acyclic ↦ elim (Bool-cases (exceeds_max_depth edges p)) [
            | inl deep ↦ inl (
              bad_request,
              rw (find_many_lem prisma ctx suites refl inside db) (rw (exists, acyclic, deep) refl),
            )
            | inr fits ↦ inr (
              rw (find_many_lem prisma ctx suites refl inside db) (rw (exists, acyclic, fits) refl),
              acyclic,
            )
          ]
        ]
      ]

  assert_if_outcome :
      (checked : Option Uuid)
      → ((e : Failure) × (assert_usable_if prisma ctx checked (some s) db ≡ (err e, db)))
        ⊎ ((assert_usable_if prisma ctx checked (some s) db ≡ (ok tt, db))
            × ((p : Uuid) → checked ≡ some p → creates_cycle (edges_of org db.suites) s p ≡ false))
  assert_if_outcome none = inr (refl, λ p e. cc)
  assert_if_outcome (some p) = elim (assert_outcome p) [
    | inl refused ↦ inl refused
    | inr (passed, acyclic) ↦ inr (passed, λ q e. ground (arith, acyclic, e))
  ]

  abbrev by_id : TestSuite → Bool
  by_id = within suites org (λ x. x.id == s)

  module _ (json : Json) (dto : UpdateSuiteDto) where
    abbrev pub NoCycle : TestSuite → Type 0
    NoCycle existing =
        (p : Uuid)
        → checked_parent dto.parent_id existing.parent_id ≡ some p
        → creates_cycle (edges_of org db.suites) s p ≡ false

    -- Nothing changes, or the suite was there, its new parent was checked, and it changes alone.
    pub update_outcome :
        ((update prisma ctx json s dto db).1 ≡ db)
        ⊎ ((existing : TestSuite) × (find by_id db.suites ≡ some existing)
            × NoCycle existing
            × ((update prisma ctx json s dto db).1.suites
                ≡ change by_id (change_suite dto) db.suites))
    unfolding update update_tx
    update_outcome = elim (Option-cases (find by_id db.suites)) [
      | inl missing ↦ inl (
          rw prisma.transaction_lem
            (rw (find_unique_lem prisma ctx suites refl inside db) (rw missing refl)))
      | inr (existing, found) ↦
          elim (assert_if_outcome (checked_parent dto.parent_id existing.parent_id)) [
            | inl (e, refused) ↦ inl (
                rw prisma.transaction_lem (
                  rw (find_unique_lem prisma ctx suites refl inside db)
                    (rw found (rw refused refl))))
            | inr (passed, acyclic) ↦ inr (
              existing,
              found,
              acyclic,
              rw prisma.transaction_lem (
                  rw (find_unique_lem prisma ctx suites refl inside db) (
                    rw found (
                      rw passed (
                        rw (update_row_lem prisma ctx suites refl inside db)
                          (rw found (rw (record_scoped_lem prisma ctx _ _ inside) refl)))))),
            )
          ]
    ]
