-- ===== src/Cases/Listing.antt =====
-- `list` of backend/src/cases/cases.service.ts. The search for a text is Postgres' `ILIKE`, a
-- parameter; `updatedAt`, which Prisma keeps, is one too.
use runboard.Prelude.{
  ℕ, ◌+◌, ◌==◌, ◌≡◌, ◌≤◌, refl, Bool, ◌&&◌, String, Option, none, some, List, map, length, suc,
}
use runboard.Prelude.Keys.{Distinct}
use runboard.Schema.{Uuid, Time, Db, CasePriority, priority_index, TestCase}
use runboard.Exec.{Tx, ok, ◌>>=◌, pure}
use runboard.Context.{RequestContext, organization_of}
use runboard.Prisma.{Prisma}
use runboard.Prisma.Distinct.{Lists, find_ordered-Lists, find_ordered-Distinct}
use runboard.Tenant.{within}
use runboard.Tenant.Tables.{cases}
use runboard.Tenant.Listings.{asked, take, after_cursor, Page, page_of, find_page, find_ordered_lem}
use runboard.Tenant.Pages.{map_page, collect, collect_all}

-- `q` has one character or more by its schema.
pub record ListCasesQueryDto : Type 0 where
  pub suite_id : Option Uuid
  pub priority : Option CasePriority
  pub q : Option String
  pub take : ℕ

module _ (updated : TestCase → Time) (contains_insensitive : String → String → Bool) where
  -- `LIST_SELECT`: a case without its steps.
  pub record CaseItem : Type 0 where
    pub id : Uuid
    pub suite_id : Uuid
    pub title : String
    pub preconditions : Option String
    pub expected_result : String
    pub priority : CasePriority
    pub created_by_id : Uuid
    pub updated_at : Time

  abbrev pub list_select : TestCase → CaseItem
  list_select c = record {
    id = c.id;
    suite_id = c.suite_id;
    title = c.title;
    preconditions = c.preconditions;
    expected_result = c.expected_result;
    priority = c.priority;
    created_by_id = c.created_by_id;
    updated_at = updated c;
  }

  abbrev pub listed : ListCasesQueryDto → TestCase → Bool
  listed query c =
      asked query.suite_id (λ id. c.suite_id == id)
      && asked query.priority (λ p. priority_index c.priority == priority_index p)
      && asked query.q (λ q. contains_insensitive q c.title)

  module _ (prisma : Prisma) (ctx : Option RequestContext) where
    unfoldable pub list : ListCasesQueryDto → (cursor : Option Uuid) → Tx (Page CaseItem)
    list query cursor = do
      rows ← find_page prisma ctx cases updated (listed query) (λ c. c.id) (query.take + 1) cursor
      pure (map_page list_select (page_of (λ c. c.id) query.take rows))

    module _ {org : Uuid} (inside : organization_of ctx ≡ some org) (query : ListCasesQueryDto)
        (db : Db) where
      abbrev rows : List TestCase
      rows = prisma.find_ordered updated (within cases org (listed query)) db.cases

      list_lem :
          (cursor : Option Uuid)
          → list query cursor db ≡ (
            ok (
                map_page list_select (
                  page_of
                    (λ c. c.id)
                    query.take
                    (take (query.take + 1) (after_cursor (λ c. c.id) cursor rows)))),
            db,
          )
      unfolding list
      list_lem cursor =
          rw (find_ordered_lem prisma ctx cases refl inside db updated (listed query)) refl

      -- With pages of one case or more, following `nextCursor` from the first page ends after at
      -- most one page for each case and one more, and collects the organisation's cases that the
      -- query asks for, the latest change first, each of them once, if the ids are distinct and
      -- every request finds cases of one time in the same order; nothing is changed.
      pub list-Lists_cases :
          1 ≤ query.take
          → Distinct (λ (c : TestCase). c.id) db.cases
          → (items : List TestCase) × Lists updated (within cases org (listed query)) db.cases items
            × (collect (λ request. list query) (suc (length items)) none db
                ≡ (ok (map list_select items), db))
      list-Lists_cases positive distinct = (
        rows,
        find_ordered-Lists prisma updated (within cases org (listed query)) db.cases,
        collect_all (λ c. c.id) list_select query.take db rows (λ request. list query) positive
            (find_ordered-Distinct (λ c. c.id) prisma updated (within cases org (listed query))
              db.cases distinct)
            λ request. list_lem,
      )
