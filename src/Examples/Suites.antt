-- ===== src/Examples/Suites.antt =====
-- Suite trees: 1 above 2 above 3, and the tree of 4 above 5.
use runboard.Prelude.{
  ℕ, zero, suc, ◌<◌, ◌≡◌, refl, ◌↔◌, true, false, Option, none, some, List, [], ◌∷◌, contains,
  arith,
}
use runboard.Schema.{Uuid, TestSuite, Db}
use runboard.Prisma.{lists}
use runboard.Dto.{Json, Patch}
use runboard.Suites.Service.{UpdateSuiteDto, update}
use runboard.Suites.Service.Forest.{update-Rooted}
use runboard.Suites.Service.Outcome.{edges_of}
use runboard.Examples.Data.{tester_context, one_run}
use runboard.Suites.Rules.{
  SuiteEdge, parent_of, chain_loop, chain_fuel, ancestor_chain, exceeds_max_depth, creates_cycle,
}
use runboard.Suites.Rules.Termination.{ancestor_chain_total}
use runboard.Suites.Rules.Ancestors.{Ancestor, ancestor_chain_iff, creates_cycle_iff}
use runboard.Suites.Rules.Acyclic.{Rooted, relink, relink-Rooted}
use runboard.Suites.Rules.Acyclic.Depth.{Depth, exceeds_max_depth_iff, relink_past_limit}

abbrev edge : ℕ → Option ℕ → SuiteEdge
edge id parent = record { id = id; parent_id = parent }

abbrev forest : List SuiteEdge
forest = edge 1 none ∷ edge 2 (some 1) ∷ edge 3 (some 2) ∷ edge 4 none ∷ edge 5 (some 4) ∷ []

chain_of_leaf : ancestor_chain forest 3 ≡ 3 ∷ 2 ∷ 1 ∷ []
unfolding ancestor_chain chain_loop parent_of
chain_of_leaf = refl

-- Two suites that name each other as parent do not hold the loop up.
circle : ancestor_chain (edge 1 (some 2) ∷ edge 2 (some 1) ∷ []) 1 ≡ 1 ∷ 2 ∷ []
unfolding ancestor_chain chain_loop parent_of
circle = refl

ancestor_chain_total_example :
    chain_loop (parent_of forest) (chain_fuel forest) [] [] (some 3)
    ≡ some (ancestor_chain forest 3)
ancestor_chain_total_example = ancestor_chain_total forest 3

ancestor_chain_iff_example :
    (contains 1 (ancestor_chain forest 3) ≡ true) ↔ Ancestor (parent_of forest) 3 1
ancestor_chain_iff_example = ancestor_chain_iff forest 3 1

creates_cycle_iff_example : (creates_cycle forest 1 3 ≡ true) ↔ Ancestor (parent_of forest) 3 1
creates_cycle_iff_example = creates_cycle_iff forest 1 3

Depth-five : Depth (parent_of forest) 5 2
unfolding parent_of
Depth-five = Depth.below {p = 4} refl (Depth.top refl)

exceeds_max_depth_iff_example : (exceeds_max_depth forest 5 ≡ true) ↔ (3 < 3)
exceeds_max_depth_iff_example = exceeds_max_depth_iff forest 5 2 Depth-five

no_cycle : creates_cycle forest 2 5 ≡ false
unfolding creates_cycle ancestor_chain chain_loop parent_of
no_cycle = refl

parent_of_three : parent_of forest 3 ≡ some 2
unfolding parent_of
parent_of_three = refl

relink_past_limit_example :
    (exceeds_max_depth forest 5 ≡ false) × Depth (parent_of (relink 2 (some 5) forest)) 3 4
relink_past_limit_example =
    relink_past_limit forest 2 5 3 (some 1) refl Depth-five no_cycle parent_of_three (omega arith)

Rooted-all : (x : Uuid) → Rooted (parent_of forest) x
unfolding parent_of
Rooted-all zero = Rooted.top refl
Rooted-all (suc zero) = Rooted.top refl
Rooted-all (suc (suc zero)) = Rooted.below {p = 1} refl (Rooted.top refl)
Rooted-all (suc (suc (suc zero))) =
    Rooted.below {p = 2} refl (Rooted.below {p = 1} refl (Rooted.top refl))
Rooted-all (suc (suc (suc (suc zero)))) = Rooted.top refl
Rooted-all (suc (suc (suc (suc (suc zero))))) = Rooted.below {p = 4} refl (Rooted.top refl)
Rooted-all (suc (suc (suc (suc (suc (suc n)))))) = Rooted.top (ground arith)

relink-Rooted_example : Rooted (parent_of (relink 2 (some 5) forest)) 3
relink-Rooted_example = relink-Rooted forest 2 5 (some 1) refl no_cycle Rooted-all 3

abbrev suite_of : ℕ → Option ℕ → TestSuite
suite_of id parent = record {
  id = id;
  organization_id = 1;
  parent_id = parent;
  name = "Suite";
  description = none;
  position = 0;
  created_by_id = 7;
}

abbrev with_suites : Db
with_suites = record one_run {
  suites =
      suite_of 1 none
      ∷ suite_of 2 (some 1)
      ∷ suite_of 3 (some 2)
      ∷ suite_of 4 none
      ∷ suite_of 5 (some 4)
      ∷ [];
}

abbrev blank : Json
blank = record {
  of_string = λ s. s;
  of_number = λ n. "0";
  of_id = λ id. "id";
  of_steps = λ steps. "[]";
  of_priority = λ p. "p";
  of_severity = λ s. "s";
  of_status = λ s. "t";
}

abbrev under_five : UpdateSuiteDto
under_five = record {
  name = none;
  description = Patch.absent;
  parent_id = Patch.value 5;
  position = none;
}

update-Rooted_example :
    Rooted
      (parent_of (edges_of 1 (update lists tester_context blank 2 under_five with_suites).1.suites))
      3
update-Rooted_example =
    update-Rooted lists tester_context refl blank 2 under_five with_suites (omega arith) Rooted-all
      3
