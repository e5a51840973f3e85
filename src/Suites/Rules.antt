-- ===== src/Suites/Rules.antt =====
-- backend/src/suites/lib/suite-tree-rules.ts: the rules of the tree of suites, on its links.
pub mod Termination
pub mod Ancestors
pub mod Acyclic
use runboard.Prelude.{
  ℕ, zero, suc, ◌+◌, ◌==◌, leb, Bool, true, false, Option, none, some, List, [], ◌∷◌, ◌++◌, length,
  contains, if◌then◌else◌,
}
use runboard.Schema.{Uuid}

pub record SuiteEdge : Type 0 where
  pub id : Uuid
  pub parent_id : Option Uuid

abbrev pub max_suite_depth : ℕ
max_suite_depth = 3

-- `parentOf.get(id)`: of two entries with one key the Map holds the later.
abbrev pub map_get : List SuiteEdge → Uuid → Option (Option Uuid)
map_get [] id = none
map_get (e ∷ edges) id = elim (map_get edges id) [
  | some parent ↦ some parent
  | none ↦ if e.id == id then some e.parent_id else none
]

-- `parentOf.get(id) ?? null`
abbrev or_null : Option (Option Uuid) → Option Uuid
or_null none = none
or_null (some parent) = parent

unfoldable pub parent_of : List SuiteEdge → Uuid → Option Uuid
parent_of edges id = or_null (map_get edges id)

-- The `while` loop; `none` means that the fuel ran out. `seen` holds the ids of `chain`.
unfoldable pub chain_loop :
    (Uuid → Option Uuid) → ℕ → List Uuid → List Uuid → Option Uuid → Option (List Uuid)
chain_loop parent zero seen chain current = none
chain_loop parent (suc fuel) seen chain none = some chain
chain_loop parent (suc fuel) seen chain (some id) =
    let rest = chain_loop parent fuel (id ∷ seen) (chain ++ id ∷ []) (parent id) in
    if contains id seen then some chain else rest

abbrev or_empty : Option (List Uuid) → List Uuid
or_empty none = []
or_empty (some chain) = chain

abbrev pub chain_fuel : List SuiteEdge → ℕ
chain_fuel edges = length edges + 2

unfoldable pub ancestor_chain : List SuiteEdge → Uuid → List Uuid
ancestor_chain edges start_id =
    or_empty (chain_loop (parent_of edges) (chain_fuel edges) [] [] (some start_id))

unfoldable pub exceeds_max_depth : List SuiteEdge → Uuid → Bool
exceeds_max_depth edges parent_id = leb max_suite_depth (length (ancestor_chain edges parent_id))

unfoldable pub creates_cycle : List SuiteEdge → Uuid → Uuid → Bool
creates_cycle edges suite_id new_parent_id =
    if suite_id == new_parent_id
    then true
    else contains suite_id (ancestor_chain edges new_parent_id)
