-- ===== src/Exec/After.antt =====
-- What holds of the database after an action that answers; of one that throws nothing is asked,
-- since the transaction around it drops what it wrote.
use runboard.Prelude.{◌≡◌, refl, sym, subst, Bool, true, false, Option, none, some}
use runboard.Schema.{Db}
use runboard.Exec.{Failure, Result, ok, err, Tx, continue, ◌>>=◌, guard, require}

abbrev pub After : {A : Type 0} → (A → Db → Type 0) → Result A × Db → Type 0
After Q (ok a, db) = Q a db
After Q (err e, db) = Unit

-- The action answers in the database `to`, with a value of which `Q` holds.
abbrev pub Reaches : {A : Type 0} → Db → (A → Type 0) → Result A × Db → Type 0
Reaches to Q = After (λ a db. (db ≡ to) × Q a)

continue-After :
    {A B : Type 0} (to : Db) (Q : A → Type 0) (R : B → Db → Type 0) (r : Result A × Db)
    (f : A → Tx B)
    → Reaches to Q r
    → ((a : A) → Q a → After R (f a to))
    → After R (continue r.0 f r.1)
continue-After to Q R (ok a, db) f (same, q) next =
    subst (λ d. After R (f a d)) (sym same) (next a q)
continue-After to Q R (err e, db) f _ next = tt

-- The rule for `>>=`.
pub bind-After :
    {A B : Type 0} (to : Db) (Q : A → Type 0) (R : B → Db → Type 0) (m : Tx A) (f : A → Tx B)
    (db : Db)
    → Reaches to Q (m db)
    → ((a : A) → Q a → After R (f a to))
    → After R ((m >>= f) db)
bind-After to Q R m f db first next = continue-After to Q R (m db) f first next

pub guard-Reaches : (b : Bool) (e : Failure) (db : Db) → Reaches db (λ _. b ≡ true) (guard b e db)
guard-Reaches true e db = (refl, refl)
guard-Reaches false e db = tt

pub require-Reaches :
    {A : Type 0} (e : Failure) (o : Option A) (db : Db)
    → Reaches db (λ a. o ≡ some a) (require e o db)
require-Reaches e none db = tt
require-Reaches e (some a) db = (refl, refl)

-- The rule for `>>=` where the database is known by a property.
chain-After :
    {A B : Type 0} (Q : A → Db → Type 0) (R : B → Db → Type 0) (r : Result A × Db) (f : A → Tx B)
    → After Q r
    → ((a : A) (d : Db) → Q a d → After R (f a d))
    → After R (continue r.0 f r.1)
chain-After Q R (ok a, db) f q next = next a db q
chain-After Q R (err e, db) f _ next = tt

pub then-After :
    {A B : Type 0} (Q : A → Db → Type 0) (R : B → Db → Type 0) (m : Tx A) (f : A → Tx B) (db : Db)
    → After Q (m db)
    → ((a : A) (d : Db) → Q a d → After R (f a d))
    → After R ((m >>= f) db)
then-After Q R m f db first next = chain-After Q R (m db) f first next

-- What is known of the value may be forgotten.
pub forget :
    {A : Type 0} (to : Db) (Q : A → Type 0) (r : Result A × Db)
    → Reaches to Q r
    → Reaches to (λ _. Unit) r
forget to Q (ok a, db) h = (h.0, tt)
forget to Q (err e, db) h = tt
