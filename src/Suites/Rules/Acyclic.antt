-- ===== src/Suites/Rules/Acyclic.antt =====
-- backend/src/suites/lib/suite-tree-rules.ts: moves of a suite, and the links that lead to the top.
pub mod Depth
use runboard.Prelude.{
  ℕ, ◌≡◌, ◌≢◌, refl, ◌==◌, Bool, true, false, Option, none, some, List, [], ◌∷◌, change, Bool-cases,
  Option-cases, inl, inr, arith, if◌then◌else◌, eq_of_==, ◌∙◌, sym, subst,
}
use runboard.Schema.{Uuid}
use runboard.Suites.Rules.{SuiteEdge, map_get, parent_of, creates_cycle}
use runboard.Suites.Rules.Ancestors.{Ancestor, self, up, Ancestor-first, creates_cycle_iff}

-- The links from a suite lead to the top in finitely many steps.
pub data Rooted (parent : Uuid → Option Uuid) : Uuid → Type 0 where
  top : {x : Uuid} → parent x ≡ none → Rooted parent x
  below : {x p : Uuid} → parent x ≡ some p → Rooted parent p → Rooted parent x

-- The edges after `update({ where: { id }, data: { parentId } })`.
abbrev pub relink : Uuid → Option Uuid → List SuiteEdge → List SuiteEdge
relink id parent = change (λ e. e.id == id) (λ e. record e { parent_id = parent })

map_get-relink_ne :
    (id : Uuid) (parent : Option Uuid) (edges : List SuiteEdge) (x : Uuid)
    → x ≢ id
    → map_get (relink id parent edges) x ≡ map_get edges x
map_get-relink_ne id parent [] x ne = refl
map_get-relink_ne id parent (e ∷ edges) x ne =
    ground (arith, map_get-relink_ne id parent edges x ne, eq_of_== e.id id, eq_of_== e.id x)

map_get-relink-none :
    (id : Uuid) (parent : Option Uuid) (edges : List SuiteEdge)
    → map_get edges id ≡ none
    → map_get (relink id parent edges) id ≡ none
map_get-relink-none id parent [] h = refl
map_get-relink-none id parent (e ∷ edges) h = elim (Option-cases (map_get edges id)) [
  | inl missing ↦ ground (arith, map_get-relink-none id parent edges missing)
  | inr (other, found) ↦ ground arith
]

map_get-relink_self :
    (id : Uuid) (parent : Option Uuid) (edges : List SuiteEdge) (entry : Option Uuid)
    → map_get edges id ≡ some entry
    → map_get (relink id parent edges) id ≡ some parent
map_get-relink_self id parent [] entry h = cc
map_get-relink_self id parent (e ∷ edges) entry h = elim (Option-cases (map_get edges id)) [
  | inl missing ↦ ground (arith, map_get-relink-none id parent edges missing)
  | inr (other, found) ↦ ground (arith, map_get-relink_self id parent edges other found)
]

module _ (edges : List SuiteEdge) (s : Uuid) (parent : Option Uuid) where
  pub parent_of-relink_ne :
      (x : Uuid) → x ≢ s → parent_of (relink s parent edges) x ≡ parent_of edges x
  unfolding parent_of
  parent_of-relink_ne x ne = rw (map_get-relink_ne s parent edges x ne)

  pub parent_of-relink_self :
      (entry : Option Uuid)
      → map_get edges s ≡ some entry
      → parent_of (relink s parent edges) s ≡ parent
  unfolding parent_of
  parent_of-relink_self entry h = rw (map_get-relink_self s parent edges entry h)

  -- A path that does not meet `s` is the path that it was.
  Rooted-relink :
      {x : Uuid}
      → Rooted (parent_of edges) x
      → ((y : Uuid) → Ancestor (parent_of edges) x y → y ≢ s)
      → Rooted (parent_of (relink s parent edges)) x
  Rooted-relink {x} (top h) clear = top (parent_of-relink_ne x (clear x self) ∙ h)
  Rooted-relink {x} (below h r) clear =
      below (parent_of-relink_ne x (clear x self) ∙ h)
        (Rooted-relink r (λ y a. clear y (Ancestor-first (parent_of edges) h a)))

-- Where every suite is rooted, a move of `s` under `p` that `createsCycle` does not refuse leaves
-- every suite rooted.
pub relink-Rooted :
    (edges : List SuiteEdge) (s p : Uuid) (entry : Option Uuid)
    → map_get edges s ≡ some entry
    → creates_cycle edges s p ≡ false
    → ((x : Uuid) → Rooted (parent_of edges) x)
    → (x : Uuid) → Rooted (parent_of (relink s (some p) edges)) x
relink-Rooted edges s p entry listed refused rooted x = from (rooted x)
  where
    clear : (y : Uuid) → Ancestor (parent_of edges) p y → y ≢ s
    clear y a e =
        cc ((creates_cycle_iff edges s p).1 (subst (Ancestor (parent_of edges) p) e a), refused)

    under_p : Rooted (parent_of (relink s (some p) edges)) p
    under_p = Rooted-relink edges s (some p) (rooted p) clear

    at_s : Rooted (parent_of (relink s (some p) edges)) s
    at_s = below (parent_of-relink_self edges s (some p) entry listed) under_p

    from : {y : Uuid} → Rooted (parent_of edges) y → Rooted (parent_of (relink s (some p) edges)) y
    from {y} (top h) = elim (Bool-cases (y == s)) [
      | inl same ↦
          subst (Rooted (parent_of (relink s (some p) edges))) (sym (eq_of_== y s same)) at_s
      | inr other ↦ top (parent_of-relink_ne edges s (some p) y (ground arith) ∙ h)
    ]
    from {y} (below h r) = elim (Bool-cases (y == s)) [
      | inl same ↦
          subst (Rooted (parent_of (relink s (some p) edges))) (sym (eq_of_== y s same)) at_s
      | inr other ↦ below (parent_of-relink_ne edges s (some p) y (ground arith) ∙ h) (from r)
    ]
