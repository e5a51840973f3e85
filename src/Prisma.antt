-- ===== src/Prisma.antt =====
-- What the services rely on of Prisma Client and Postgres, which are not part of the repository:
-- the operations on the rows of one model, and `$transaction`. The laws are Prisma's documented
-- behaviour. A table's list is in the order in which the database returns its rows.
mod Sorted
mod Groups
pub mod Distinct
pub mod Order
pub use Sorted.{
  IsDescending, insert_down, sort_down, count-sort_down, sort_down-IsDescending, sort_down-All,
}
pub use Groups.{IsGrouping, empty, group, groups_of, groups_of-IsGrouping}
use runboard.Prelude.{
  ℕ, Bool, Option, none, some, List, [], ◌∷◌, ◌++◌, ◌≡◌, refl, find, any, keep, count, change, not,
  if◌then◌else◌, All, length, leb, ◌==◌, ◌≤◌, ◌<◌, ◌+◌, zero, suc, ap, ◌∙◌, Bool-cases, inl, inr,
  arith, ==_self,
}
use native.Mathlib.Nat.{le_refl}
use runboard.Schema.{Db, Time}
use runboard.Exec.{Tx, Result, ok, err}
use runboard.Exec.After.{After}

-- What a `$transaction` leaves: everything on success, nothing of its writes on a throw.
abbrev pub settle : {A : Type 0} → Db → Result A × Db → Result A × Db
settle before (ok a, after) = (ok a, after)
settle before (err e, after) = (err e, before)

pub record Prisma : Type 1 where
  -- `findUnique` and `findFirst`
  pub find_one : {Row : Type 0} → (Row → Bool) → List Row → Option Row
  pub find_one_lem :
      {Row : Type 0} (where_ : Row → Bool) (rows : List Row)
      → find_one where_ rows ≡ find where_ rows
  -- `findMany` with no order asked for
  pub find_many : {Row : Type 0} → (Row → Bool) → List Row → List Row
  pub find_many_lem :
      {Row : Type 0} (where_ : Row → Bool) (rows : List Row)
      → find_many where_ rows ≡ keep where_ rows
  pub count_rows : {Row : Type 0} → (Row → Bool) → List Row → ℕ
  pub count_rows_lem :
      {Row : Type 0} (where_ : Row → Bool) (rows : List Row)
      → count_rows where_ rows ≡ count where_ rows
  -- `update` and `updateMany`; the caller tells the case of no row.
  pub update : {Row : Type 0} → (Row → Bool) → (Row → Row) → List Row → List Row
  pub update_lem :
      {Row : Type 0} (where_ : Row → Bool) (f : Row → Row) (rows : List Row)
      → update where_ f rows ≡ change where_ f rows
  -- `delete` and `deleteMany`
  pub delete : {Row : Type 0} → (Row → Bool) → List Row → List Row
  pub delete_lem :
      {Row : Type 0} (where_ : Row → Bool) (rows : List Row)
      → delete where_ rows ≡ keep (λ r. not (where_ r)) rows
  -- `create`: `none` is P2002, the new row clashes with one that is there.
  pub create : {Row : Type 0} → (Row → Row → Bool) → Row → List Row → Option (List Row)
  pub create_lem :
      {Row : Type 0} (clash : Row → Row → Bool) (row : Row) (rows : List Row)
      → create clash row rows ≡ (if any (clash row) rows then none else some (rows ++ row ∷ []))
  -- `findMany` with `orderBy: { …: 'desc' }`: the rows that pass, each as often as it was there. The
  -- order of rows of one time is not documented: another `Prisma` may answer them in another.
  pub find_ordered : {Row : Type 0} → (Row → Time) → (Row → Bool) → List Row → List Row
  pub find_ordered_count :
      {Row : Type 0} (at : Row → Time) (where_ : Row → Bool) (rows : List Row) (p : Row → Bool)
      → count p (find_ordered at where_ rows) ≡ count p (keep where_ rows)
  pub find_ordered_sorted :
      {Row : Type 0} (at : Row → Time) (where_ : Row → Bool) (rows : List Row)
      → IsDescending at (find_ordered at where_ rows)
  pub find_ordered_all :
      {Row : Type 0} (at : Row → Time) (where_ : Row → Bool) (rows : List Row) (P : Row → Type 0)
      → All P (keep where_ rows)
      → All P (find_ordered at where_ rows)
  -- `groupBy` an enum, which is given by the places of its values
  pub group_by : {Row : Type 0} → (Row → ℕ) → (Row → Bool) → List Row → List (ℕ × List Row)
  pub group_by_lem :
      {Row : Type 0} (key : Row → ℕ) (where_ : Row → Bool) (rows : List Row)
      → IsGrouping key (keep where_ rows) (group_by key where_ rows)
  pub transaction : {A : Type 0} → Tx A → Tx A
  pub transaction_lem :
      {A : Type 0} (body : Tx A) (db : Db) → transaction body db ≡ settle db (body db)

-- The operations on plain lists, which the tests and the examples run.
abbrev pub lists : Prisma
lists = record {
  find_one = find;
  find_one_lem = λ p rows. refl;
  find_many = keep;
  find_many_lem = λ p rows. refl;
  count_rows = count;
  count_rows_lem = λ p rows. refl;
  update = change;
  update_lem = λ p f rows. refl;
  delete = λ p. keep (λ r. not (p r));
  delete_lem = λ p rows. refl;
  create = λ clash row rows. if any (clash row) rows then none else some (rows ++ row ∷ []);
  create_lem = λ clash row rows. refl;
  find_ordered = sort_down;
  find_ordered_count = λ at where_ rows p. count-sort_down at where_ p rows;
  find_ordered_sorted = λ at where_ rows. sort_down-IsDescending at where_ rows;
  find_ordered_all = λ at where_ rows P. sort_down-All at where_ P rows;
  group_by = λ key where_ rows. groups_of (length (keep where_ rows)) key (keep where_ rows);
  group_by_lem = λ key where_ rows.
      groups_of-IsGrouping key (length (keep where_ rows)) (keep where_ rows) (le_refl _);
  transaction = λ body db. settle db (body db);
  transaction_lem = λ body db. refl;
}

pub settle-ok :
    {A : Type 0} (before : Db) (r : Result A × Db) (a : A) → r.0 ≡ ok a → (settle before r).1 ≡ r.1
settle-ok before (ok b, after) a h = refl
settle-ok before (err e, after) a h = cc

pub answer-settle : {A : Type 0} (before : Db) (r : Result A × Db) → (settle before r).0 ≡ r.0
answer-settle before (ok b, after) = refl
answer-settle before (err e, after) = refl

-- A transaction keeps what its body keeps.
pub settle-After :
    {A : Type 0} (P : Db → Type 0) (db : Db) (r : Result A × Db)
    → P db
    → After (λ _. P) r
    → P (settle db r).1
settle-After P db (ok a, after) h k = k
settle-After P db (err e, after) h k = h
