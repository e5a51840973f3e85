-- ===== src/Suites/Rules/Termination.antt =====
-- backend/src/suites/lib/suite-tree-rules.ts: the rounds of the loop of `ancestorChain`.
use runboard.Prelude.{
  ℕ, zero, suc, ◌+◌, ◌≤◌, ◌<◌, ◌≡◌, refl, false, not, Option, none, some, List, [], ◌∷◌, ◌++◌,
  length, contains, count, Bool-cases, Option-cases, inl, inr, arith, eq_of_==,
}
use runboard.Schema.{Uuid}
use runboard.Suites.Rules.{SuiteEdge, map_get, parent_of, chain_loop, chain_fuel, ancestor_chain}

-- The edges whose child has not been seen.
abbrev unused : List Uuid → List SuiteEdge → ℕ
unused seen = count (λ e. not (contains e.id seen))

unused-cons :
    (id : Uuid) (seen : List Uuid) (edges : List SuiteEdge)
    → unused (id ∷ seen) edges ≤ unused seen edges
unused-cons id seen [] = omega arith
unused-cons id seen (e ∷ edges) = ground (arith, unused-cons id seen edges)

-- A node with an entry uses up an edge.
unused-lt :
    (id : Uuid) (seen : List Uuid) (edges : List SuiteEdge) (entry : Option Uuid)
    → map_get edges id ≡ some entry
    → contains id seen ≡ false
    → unused (id ∷ seen) edges < unused seen edges
unused-lt id seen [] entry h fresh = cc
unused-lt id seen (e ∷ edges) entry h fresh = elim (Option-cases (map_get edges id)) [
  | inl missing ↦ ground (arith, unused-cons id seen edges, eq_of_== e.id id)
  | inr (other, found) ↦
      ground (arith, unused-lt id seen edges other found fresh, unused-cons id seen edges)
]

unused-le-length : (seen : List Uuid) (edges : List SuiteEdge) → unused seen edges ≤ length edges
unused-le-length seen [] = omega arith
unused-le-length seen (e ∷ edges) = ground (arith, unused-le-length seen edges)

parent_of-root :
    (edges : List SuiteEdge) (id : Uuid) → map_get edges id ≡ none → parent_of edges id ≡ none
unfolding parent_of
parent_of-root edges id h = rw h

loop_total :
    (edges : List SuiteEdge) (fuel : ℕ) (seen chain : List Uuid) (current : Option Uuid)
    → unused seen edges + 2 ≤ fuel
    → (out : List Uuid) × (chain_loop (parent_of edges) fuel seen chain current ≡ some out)
unfolding chain_loop
loop_total edges zero seen chain current h = absurd (omega arith)
loop_total edges (suc fuel) seen chain none h = (chain, refl)
loop_total edges (suc fuel) seen chain (some id) h = elim (Bool-cases (contains id seen)) [
  | inl stop ↦ (chain, rw stop)
  | inr fresh ↦ rw fresh (elim (Option-cases (map_get edges id)) [
    | inl root ↦ rw (parent_of-root edges id root) (ended fuel (omega arith))
    | inr (entry, found) ↦
        loop_total edges fuel (id ∷ seen) (chain ++ id ∷ []) (parent_of edges id)
          (omega (arith, unused-lt id seen edges entry found fresh))
  ])
]
  where
    ended :
        (f : ℕ)
        → 0 < f
        → (out : List Uuid) × (chain_loop (parent_of edges) f (id ∷ seen) (chain ++ id ∷ []) none
            ≡ some out)
    ended zero p = absurd (omega arith)
    ended (suc f) p = (chain ++ id ∷ [], refl)

-- The fuel of `ancestorChain` is enough for any edges, cyclic or not: the loop ends by its test.
pub ancestor_chain_total :
    (edges : List SuiteEdge) (start_id : Uuid)
    → chain_loop (parent_of edges) (chain_fuel edges) [] [] (some start_id)
      ≡ some (ancestor_chain edges start_id)
unfolding ancestor_chain
ancestor_chain_total edges start_id =
    let (out, ends) =
      loop_total edges (chain_fuel edges) [] [] (some start_id)
        (omega (arith, unused-le-length [] edges)) in
    rw ends
