-- ===== src/Suites/Rules/Ancestors.antt =====
-- backend/src/suites/lib/suite-tree-rules.ts: what `ancestorChain` collects, by the parent links.
use runboard.Prelude.{
  ℕ, zero, suc, ◌≡◌, ◌↔◌, ◌⊎◌, inl, inr, refl, ◌==◌, ◌||◌, true, Option, none, some, List, [], ◌∷◌,
  ◌++◌, contains, Bool-cases, All, arith, ==_self, eq_of_==, sym, subst,
}
use runboard.Schema.{Uuid}
use runboard.Suites.Rules.{
  SuiteEdge, parent_of, chain_loop, chain_fuel, ancestor_chain, creates_cycle,
}
use runboard.Suites.Rules.Termination.{ancestor_chain_total}

-- `x` is `s` or stands above it.
pub data Ancestor (parent : Uuid → Option Uuid) (s : Uuid) : Uuid → Type 0 where
  self : Ancestor parent s s
  up : {x y : Uuid} → Ancestor parent s x → parent x ≡ some y → Ancestor parent s y

contains-concat :
    (x y : Uuid) (xs : List Uuid) → contains x (xs ++ y ∷ []) ≡ (contains x xs || (y == x))
contains-concat x y [] = ground arith
contains-concat x y (z ∷ xs) = ground (arith, contains-concat x y xs)

some-inj : {u v : List Uuid} → some u ≡ some v → u ≡ v
some-inj e = cc

All-concat : (P : Uuid → Type 0) (xs : List Uuid) (y : Uuid) → All P xs → P y → All P (xs ++ y ∷ [])
All-concat P [] y _ p = (p, tt)
All-concat P (x ∷ xs) y (h, hs) p = (h, All-concat P xs y hs p)

All-contains :
    (P : Uuid → Type 0) (xs : List Uuid) (x : Uuid) → All P xs → contains x xs ≡ true → P x
All-contains P [] x _ h = cc
All-contains P (y ∷ xs) x (p, ps) h = elim (Bool-cases (y == x)) [
  | inl same ↦ subst P (eq_of_== y x same) p
  | inr other ↦ All-contains P xs x ps (ground arith)
]

module _ (parent : Uuid → Option Uuid) where
  loop_sound :
      (s : Uuid) (fuel : ℕ) (seen chain : List Uuid) (current : Option Uuid) (out : List Uuid)
      → All (Ancestor parent s) chain
      → ((c : Uuid) → current ≡ some c → Ancestor parent s c)
      → chain_loop parent fuel seen chain current ≡ some out
      → All (Ancestor parent s) out
  unfolding chain_loop
  loop_sound s zero seen chain current out above next h = cc
  loop_sound s (suc fuel) seen chain none out above next h =
      subst (All (Ancestor parent s)) (some-inj h) above
  loop_sound s (suc fuel) seen chain (some id) out above next h =
      elim (Bool-cases (contains id seen)) [
        | inl stop ↦ subst (All (Ancestor parent s)) (some-inj (rw stop at h)) above
        | inr fresh ↦
            loop_sound s fuel (id ∷ seen) (chain ++ id ∷ []) (parent id) out
              (All-concat (Ancestor parent s) chain id above (next id refl))
              (λ c e. up (next id refl) e) (rw fresh at h)
      ]

  abbrev IsClosed : List Uuid → Type 0
  IsClosed chain =
      (x y : Uuid) → contains x chain ≡ true → parent x ≡ some y → contains y chain ≡ true

  -- The loop's invariant: only the current node's link leads out of the chain.
  abbrev IsOpenAt : Option Uuid → List Uuid → Type 0
  IsOpenAt current chain =
      (x y : Uuid)
      → contains x chain ≡ true
      → parent x ≡ some y
      → (contains y chain ≡ true) ⊎ (current ≡ some y)

  loop_complete :
      (fuel : ℕ) (seen chain : List Uuid) (current : Option Uuid) (out : List Uuid)
      → ((x : Uuid) → contains x seen ≡ contains x chain)
      → IsOpenAt current chain
      → chain_loop parent fuel seen chain current ≡ some out
      → IsClosed out × ((x : Uuid) → contains x chain ≡ true → contains x out ≡ true)
  unfolding chain_loop
  loop_complete zero seen chain current out same opens h = cc
  loop_complete (suc fuel) seen chain none out same opens h =
      subst (λ o. IsClosed o × ((x : Uuid) → contains x chain ≡ true → contains x o ≡ true))
        (some-inj h) ((λ x y at link. ground (arith, opens x y at link)), λ x at. at)
  loop_complete (suc fuel) seen chain (some id) out same opens h =
      elim (Bool-cases (contains id seen)) [
        | inl stop ↦
            subst (λ o. IsClosed o × ((x : Uuid) → contains x chain ≡ true → contains x o ≡ true))
              (some-inj (rw stop at h))
              ((λ x y at link. ground (arith, opens x y at link, same id)), λ x at. at)
        | inr fresh ↦
            let (closed, kept) =
              loop_complete fuel (id ∷ seen) (chain ++ id ∷ []) (parent id) out
                (λ x. ground (arith, same x, contains-concat x id chain))
                (λ x y at link. ground (
                  arith,
                  opens x y,
                  contains-concat x id chain,
                  contains-concat y id chain,
                  eq_of_== id x,
                ))
                (rw fresh at h) in
            (closed, λ x at. kept x (ground (arith, contains-concat x id chain)))
      ]

  loop_start :
      (fuel : ℕ) (id : Uuid) (out : List Uuid)
      → chain_loop parent fuel [] [] (some id) ≡ some out
      → contains id out ≡ true
  unfolding chain_loop
  loop_start zero id out h = cc
  loop_start (suc fuel) id out h =
      let (_, kept) =
        loop_complete fuel (id ∷ []) (id ∷ []) (parent id) out (λ x. refl)
          (λ x y at link. ground (arith, eq_of_== id x)) h in
      kept id (ground (arith, ==_self id))

  pub Ancestor-first :
      {x y z : Uuid} → parent x ≡ some y → Ancestor parent y z → Ancestor parent x z
  Ancestor-first link self = up self link
  Ancestor-first link (up a last) = up (Ancestor-first link a) last

contains_of_Ancestor :
    {parent : Uuid → Option Uuid} {s x : Uuid} (chain : List Uuid)
    → IsClosed parent chain
    → contains s chain ≡ true
    → Ancestor parent s x
    → contains x chain ≡ true
contains_of_Ancestor chain closed start self = start
contains_of_Ancestor chain closed start (up {x} {y} a link) =
    closed x y (contains_of_Ancestor chain closed start a) link

-- The chain holds exactly the suite and its ancestors, also where the links run in a circle.
pub ancestor_chain_iff :
    (edges : List SuiteEdge) (s x : Uuid)
    → (contains x (ancestor_chain edges s) ≡ true) ↔ Ancestor (parent_of edges) s x
ancestor_chain_iff edges s x =
    let parent = parent_of edges in
    let out = ancestor_chain edges s in
    let ends = ancestor_chain_total edges s in
    let sound =
      loop_sound parent s (chain_fuel edges) [] [] (some s) out tt
        (λ c e. subst (Ancestor parent s) (some-id e) self) ends in
    let (closed, _) =
      loop_complete parent (chain_fuel edges) [] [] (some s) out (λ y. refl) (λ y z at link. cc)
        ends in
    (
      All-contains (Ancestor parent s) out x sound,
      contains_of_Ancestor out closed (loop_start parent (chain_fuel edges) s out ends),
    )
  where
    some-id : {a b : Uuid} → some a ≡ some b → a ≡ b
    some-id e = cc

-- A move is refused as a cycle exactly if the new parent is the suite or stands below it.
pub creates_cycle_iff :
    (edges : List SuiteEdge) (suite_id new_parent_id : Uuid)
    → (creates_cycle edges suite_id new_parent_id ≡ true)
      ↔ Ancestor (parent_of edges) new_parent_id suite_id
unfolding creates_cycle
creates_cycle_iff edges s p = elim (Bool-cases (s == p)) [
  | inl same ↦ (
    λ _. subst (λ x. Ancestor (parent_of edges) p x) (sym (eq_of_== s p same)) self,
    λ _. rw same,
  )
  | inr other ↦ (
    λ h. (ancestor_chain_iff edges p s).0 (rw other at h),
    λ a. rw other ((ancestor_chain_iff edges p s).1 a),
  )
]
