-- ===== src/Suites/Rules/Acyclic/Depth.antt =====
-- backend/src/suites/lib/suite-tree-rules.ts: the depth of a suite and what `exceedsMaxDepth`
-- measures.
use runboard.Prelude.{
  ℕ, zero, suc, ◌+◌, ◌↔◌, ◌≤◌, ◌<◌, ◌≡◌, ◌≢◌, refl, true, false, Option, none, some, List, [], ◌∷◌,
  ◌++◌, length, contains, Bool-cases, inl, inr, arith, eq_of_==, ◌∙◌, sym, subst, ap,
}
use runboard.Schema.{Uuid}
use runboard.Suites.Rules.{
  SuiteEdge, map_get, parent_of, chain_loop, chain_fuel, ancestor_chain, exceeds_max_depth,
  creates_cycle, max_suite_depth,
}
use runboard.Suites.Rules.Termination.{ancestor_chain_total}
use runboard.Suites.Rules.Ancestors.{Ancestor, self, up, Ancestor-first, creates_cycle_iff}
use runboard.Suites.Rules.Acyclic.{relink, parent_of-relink_ne, parent_of-relink_self}

-- A top suite has depth 1, one below a suite has one more.
pub data Depth (parent : Uuid → Option Uuid) : Uuid → ℕ → Type 0 where
  top : {x : Uuid} → parent x ≡ none → Depth parent x 1
  below : {x p : Uuid} {n : ℕ} → parent x ≡ some p → Depth parent p n → Depth parent x (suc n)

some-id : {a b : Uuid} → some a ≡ some b → a ≡ b
some-id e = cc

ended-length :
    (parent : Uuid → Option Uuid) (fuel : ℕ) (seen chain out : List Uuid)
    → chain_loop parent fuel seen chain none ≡ some out
    → length out ≡ length chain
unfolding chain_loop
ended-length parent zero seen chain out h = cc
ended-length parent (suc fuel) seen chain out h = ground arith

length-concat : (xs : List Uuid) (x : Uuid) → length (xs ++ x ∷ []) ≡ length xs + 1
length-concat [] x = omega arith
length-concat (y ∷ xs) x = omega (arith, length-concat xs x)

module _ {parent : Uuid → Option Uuid} where
  -- A suite has one depth.
  Depth-unique : {x : Uuid} {n m : ℕ} → Depth parent x n → Depth parent x m → n ≡ m
  Depth-unique (top h) (top k) = refl
  Depth-unique (top h) (below k d) = cc
  Depth-unique (below h d) (top k) = cc
  Depth-unique (below {p = p} h d) (below {p = q} {n = m} k e) =
      ap suc (Depth-unique d (subst (λ z. Depth parent z m) (some-id (sym k ∙ h)) e))

  Depth-parent :
      {x y : Uuid} {n : ℕ}
      → Depth parent x n
      → parent x ≡ some y
      → (m : ℕ) × (Depth parent y m) × (n ≡ suc m)
  Depth-parent (top h) link = cc
  Depth-parent (below {p = p} {n = m} h d) link =
      (m, subst (λ z. Depth parent z m) (some-id (sym h ∙ link)) d, refl)

  Depth-Ancestor :
      {x y : Uuid} {n : ℕ}
      → Depth parent x n
      → Ancestor parent x y
      → (m : ℕ) × (Depth parent y m) × (m ≤ n)
  Depth-Ancestor {n = n} d self = (n, d, omega arith)
  Depth-Ancestor d (up a link) =
      let (m, dm, le) = Depth-Ancestor d a in
      let (k, dk, e) = Depth-parent dm link in (k, dk, omega arith)

  proper_ne :
      {x p y : Uuid} {n : ℕ} → parent x ≡ some p → Depth parent p n → Ancestor parent p y → y ≢ x
  proper_ne {x} {n} h d a e =
      let (m, dm, le) = Depth-Ancestor d a in
      let same = Depth-unique (subst (λ z. Depth parent z m) e dm) (below h d) in
      absurd (omega arith)

  loop-length :
      (fuel : ℕ) (seen chain out : List Uuid) {x : Uuid} {n : ℕ}
      → Depth parent x n
      → ((y : Uuid) → Ancestor parent x y → contains y seen ≡ false)
      → chain_loop parent fuel seen chain (some x) ≡ some out
      → length out ≡ length chain + n
  unfolding chain_loop
  loop-length zero seen chain out d fresh h = cc
  loop-length (suc fuel) seen chain out {x} (top e) fresh h =
      let rest = rw (fresh x self, e) at h in
      omega (
        arith,
        ended-length parent fuel (x ∷ seen) (chain ++ x ∷ []) out rest,
        length-concat chain x,
      )
  loop-length (suc fuel) seen chain out {x} (below {p = p} {n = n} e d) fresh h =
      let rest = rw (fresh x self, e) at h in
      let clear : (y : Uuid) → Ancestor parent p y → contains y (x ∷ seen) ≡ false =
        λ y a. ground (arith, proper_ne e d a, fresh y (Ancestor-first parent e a), eq_of_== x y) in
      omega (
        arith,
        loop-length fuel (x ∷ seen) (chain ++ x ∷ []) out d clear rest,
        length-concat chain x,
      )

-- On a suite of a forest, the chain is as long as the suite is deep.
pub length-ancestor_chain :
    (edges : List SuiteEdge) (s : Uuid) (n : ℕ)
    → Depth (parent_of edges) s n
    → length (ancestor_chain edges s) ≡ n
length-ancestor_chain edges s n d = omega (
  arith,
  loop-length (chain_fuel edges) [] [] (ancestor_chain edges s) d (λ y a. refl)
      (ancestor_chain_total edges s),
)

-- `exceedsMaxDepth` refuses a parent exactly if a suite placed under it would be deeper than the
-- limit.
pub exceeds_max_depth_iff :
    (edges : List SuiteEdge) (p : Uuid) (n : ℕ)
    → Depth (parent_of edges) p n
    → (exceeds_max_depth edges p ≡ true) ↔ (max_suite_depth < suc n)
unfolding exceeds_max_depth
exceeds_max_depth_iff edges p n d =
    rw (length-ancestor_chain edges p n d) ((λ h. ground arith), λ h. ground arith)

Depth-relink :
    (edges : List SuiteEdge) (s : Uuid) (parent : Option Uuid) {x : Uuid} {n : ℕ}
    → Depth (parent_of edges) x n
    → ((y : Uuid) → Ancestor (parent_of edges) x y → y ≢ s)
    → Depth (parent_of (relink s parent edges)) x n
Depth-relink edges s parent {x} (top h) clear =
    top (parent_of-relink_ne edges s parent x (clear x self) ∙ h)
Depth-relink edges s parent {x} (below h d) clear =
    below (parent_of-relink_ne edges s parent x (clear x self) ∙ h)
      (Depth-relink edges s parent d (λ y a. clear y (Ancestor-first (parent_of edges) h a)))

-- A move is not checked for what hangs below the moved suite: both checks let a suite move under
-- a parent of depth 2 that is not below it, and then each of its children lies at depth 4, past
-- the limit.
pub relink_past_limit :
    (edges : List SuiteEdge) (s p c : Uuid) (entry : Option Uuid)
    → map_get edges s ≡ some entry
    → Depth (parent_of edges) p 2
    → creates_cycle edges s p ≡ false
    → parent_of edges c ≡ some s
    → c ≢ s
    → (exceeds_max_depth edges p ≡ false) × Depth (parent_of (relink s (some p) edges)) c 4
relink_past_limit edges s p c entry listed d no_cycle link ne = (
  accepted,
  below (parent_of-relink_ne edges s (some p) c ne ∙ link) (
      below (parent_of-relink_self edges s (some p) entry listed)
        (Depth-relink edges s (some p) d clear)),
)
  where
    accepted : exceeds_max_depth edges p ≡ false
    accepted = elim (Bool-cases (exceeds_max_depth edges p)) [
      | inl too_deep ↦ absurd (omega (arith, (exceeds_max_depth_iff edges p 2 d).0 too_deep))
      | inr fits ↦ fits
    ]

    clear : (y : Uuid) → Ancestor (parent_of edges) p y → y ≢ s
    clear y a e =
        cc ((creates_cycle_iff edges s p).1 (subst (Ancestor (parent_of edges) p) e a), no_cycle)
