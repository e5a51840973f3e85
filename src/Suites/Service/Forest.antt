-- ===== src/Suites/Service/Forest.antt =====
-- backend/src/suites/suites.service.ts: the links between the suites under `update`.
use runboard.Prelude.{
  ◌≡◌, refl, sym, ap, ◌∙◌, subst, ◌==◌, Bool, true, false, Option, none, some, List, [], ◌∷◌, inl,
  inr, find, change, Bool-cases, Option-cases, eq_of_==, arith,
}
use runboard.Prelude.Keys.{Distinct, Absent, some-inj, change-Absent}
use runboard.Schema.{Uuid, Db, TestSuite}
use runboard.Context.{RequestContext, organization_of}
use runboard.Prisma.{Prisma}
use runboard.Tenant.{within}
use runboard.Tenant.Tables.{suites}
use runboard.Dto.{Patch, absent, null, value, patched, Json}
use runboard.Suites.Rules.{SuiteEdge, parent_of, map_get, creates_cycle}
use runboard.Suites.Rules.Acyclic.{
  Rooted, top, below, relink, relink-Rooted, parent_of-relink_ne, parent_of-relink_self,
}
use runboard.Suites.Service.{UpdateSuiteDto, edge_of, change_suite, update}
use runboard.Suites.Service.Outcome.{edges_of, NoCycle, update_outcome}

module _ (org s : Uuid) where
  abbrev hits : TestSuite → Bool
  hits = within suites org (λ x. x.id == s)

  hits-id : (x : TestSuite) → hits x ≡ true → x.id ≡ s
  hits-id x h = ground arith

  in_org : (x : TestSuite) → hits x ≡ true → (x.organization_id == org) ≡ true
  in_org x h = ground arith

  here_id : (x : TestSuite) → hits x ≡ true → (x.id == s) ≡ true
  here_id x h = ground arith

  abbrev repatch : Patch Uuid → List SuiteEdge → List SuiteEdge
  repatch patch = change (λ e. e.id == s) (λ e. record e { parent_id = patched patch e.parent_id })

  edges-change :
      (dto : UpdateSuiteDto) (rows : List TestSuite)
      → edges_of org (change hits (change_suite dto) rows)
        ≡ repatch dto.parent_id (edges_of org rows)
  edges-change dto [] = refl
  edges-change dto (x ∷ rows) = elim (Bool-cases (x.organization_id == org)) [
    | inl ours ↦ elim (Bool-cases (x.id == s)) [
      | inl hit ↦
          rw (hit, ours)
            (rw (ours, hit) (ap (λ l. edge_of (change_suite dto x) ∷ l) (edges-change dto rows)))
      | inr miss ↦ rw (miss, ours) (rw miss (ap (λ l. edge_of x ∷ l) (edges-change dto rows)))
    ]
    | inr other ↦ elim (Bool-cases (x.id == s)) [
      | inl hit ↦ rw (hit, other) (rw other (edges-change dto rows))
      | inr miss ↦ rw (miss, other) (edges-change dto rows)
    ]
  ]

  repatch-absent : (edges : List SuiteEdge) → repatch absent edges ≡ edges
  repatch-absent [] = refl
  repatch-absent (e ∷ edges) = ground (arith, repatch-absent edges)

  -- A change of the one row that leaves its link alone leaves the links alone.
  edges-same :
      (dto : UpdateSuiteDto) (rows : List TestSuite) (existing : TestSuite)
      → Distinct (λ (x : TestSuite). x.id) rows
      → find hits rows ≡ some existing
      → patched dto.parent_id existing.parent_id ≡ existing.parent_id
      → edges_of org (change hits (change_suite dto) rows) ≡ edges_of org rows
  edges-same dto [] existing _ found _ = cc
  edges-same dto (x ∷ rows) existing (gone, distinct) found same = elim (Bool-cases (hits x)) [
    | inl hit ↦
        let rest =
          change-Absent (λ (x : TestSuite). x.id) hits s hits-id (change_suite dto) rows
            (subst (λ a. Absent (λ (x : TestSuite). x.id) a rows) (hits-id x hit) gone) in
        rw (hit, in_org x hit)
          (ap (λ l. edge_of (change_suite dto x) ∷ edges_of org l) rest
            ∙ ap (λ p. record { id = x.id; parent_id = p } ∷ edges_of org rows)
                (subst (λ (y : TestSuite). patched dto.parent_id y.parent_id ≡ y.parent_id)
                  (sym (some-inj (rw hit at found))) same))
    | inr miss ↦ elim (Bool-cases (x.organization_id == org)) [
      | inl ours ↦ rw miss (
          rw ours (
            ap (λ l. edge_of x ∷ l)
              (edges-same dto rows existing distinct (rw miss at found) same)))
      | inr other ↦
          rw miss (rw other (edges-same dto rows existing distinct (rw miss at found) same))
    ]
  ]

  map_get-listed :
      (rows : List TestSuite) (existing : TestSuite)
      → find hits rows ≡ some existing
      → (entry : Option Uuid) × (map_get (edges_of org rows) s ≡ some entry)
  map_get-listed [] existing found = cc
  map_get-listed (x ∷ rows) existing found = elim (Bool-cases (hits x)) [
    | inl hit ↦ elim (Option-cases (map_get (edges_of org rows) s)) [
      | inl alone ↦ (x.parent_id, rw (in_org x hit) (rw alone (rw (here_id x hit) refl)))
      | inr (entry, listed) ↦ (entry, rw (in_org x hit) (rw listed refl))
    ]
    | inr miss ↦
        let (entry, listed) = map_get-listed rows existing (rw miss at found) in
        elim (Bool-cases (x.organization_id == org)) [
          | inl ours ↦ (entry, rw ours (rw listed refl))
          | inr other ↦ (entry, rw other listed)
        ]
  ]

-- A suite that is moved to the top leaves the others as they hang.
relink-top-Rooted :
    (edges : List SuiteEdge) (s : Uuid) (entry : Option Uuid)
    → map_get edges s ≡ some entry
    → {x : Uuid} → Rooted (parent_of edges) x
    → Rooted (parent_of (relink s none edges)) x
relink-top-Rooted edges s entry listed {x} r = elim (Bool-cases (x == s)) [
  | inl same ↦ top (
      ap (parent_of (relink s none edges)) (eq_of_== x s same)
      ∙ parent_of-relink_self edges s none entry listed)
  | inr other ↦ from r other
]
  where
    from :
        {y : Uuid}
        → Rooted (parent_of edges) y
        → (y == s) ≡ false
        → Rooted (parent_of (relink s none edges)) y
    from {y} (top h) other = top (parent_of-relink_ne edges s none y (ground arith) ∙ h)
    from {y} (below {p = p} h r) other = elim (Bool-cases (p == s)) [
      | inl same ↦ below (parent_of-relink_ne edges s none y (ground arith) ∙ h) (
          top (
            ap (parent_of (relink s none edges)) (eq_of_== p s same)
            ∙ parent_of-relink_self edges s none entry listed))
      | inr differs ↦ below (parent_of-relink_ne edges s none y (ground arith) ∙ h) (from r differs)
    ]

module _ (prisma : Prisma) (ctx : Option RequestContext) {org : Uuid}
    (inside : organization_of ctx ≡ some org) (json : Json) (s : Uuid) (dto : UpdateSuiteDto)
    (db : Db) (distinct : Distinct (λ (x : TestSuite). x.id) db.suites)
    (rooted : (x : Uuid) → Rooted (parent_of (edges_of org db.suites)) x) where
  abbrev edges : List SuiteEdge
  edges = edges_of org db.suites

  under-Rooted :
      (existing : TestSuite) (p : Uuid)
      → find (hits org s) db.suites ≡ some existing
      → dto.parent_id ≡ value p
      → creates_cycle edges s p ≡ false
      → (x : Uuid)
      → Rooted (parent_of (edges_of org (change (hits org s) (change_suite dto) db.suites))) x
  under-Rooted existing p found e acyclic x =
      let (entry, listed) = map_get-listed org s db.suites existing found in
      rw (edges-change org s dto db.suites)
        (rw e (relink-Rooted edges s p entry listed acyclic rooted x))

  moved-Rooted :
      (existing : TestSuite)
      → find (hits org s) db.suites ≡ some existing
      → NoCycle prisma ctx inside db s json dto existing
      → (patch : Patch Uuid) → dto.parent_id ≡ patch
      → (x : Uuid)
      → Rooted (parent_of (edges_of org (change (hits org s) (change_suite dto) db.suites))) x
  moved-Rooted existing found acyclic absent e x =
      rw (edges-change org s dto db.suites) (rw e (rw (repatch-absent org s edges) (rooted x)))
  moved-Rooted existing found acyclic null e x =
      let (entry, listed) = map_get-listed org s db.suites existing found in
      rw (edges-change org s dto db.suites)
        (rw e (relink-top-Rooted edges s entry listed (rooted x)))
  moved-Rooted existing found acyclic (value p) e x = elim (Option-cases existing.parent_id) [
    | inl at_top ↦ under-Rooted existing p found e (acyclic p (rw (e, at_top) refl)) x
    | inr (old, under) ↦ elim (Bool-cases (p == old)) [
      | inl same ↦
          rw
            (edges-same org s dto db.suites existing distinct found
              (rw (e, under) (ap some (eq_of_== p old same))))
            (rooted x)
      | inr differs ↦ under-Rooted existing p found e (acyclic p (rw (e, under, differs) refl)) x
    ]
  ]

  -- Whatever an update asks for, if every suite of the organisation hangs below a suite at the
  -- top, each does so afterwards: no cycle is made.
  pub update-Rooted :
      (x : Uuid) → Rooted (parent_of (edges_of org (update prisma ctx json s dto db).1.suites)) x
  update-Rooted x = elim (update_outcome prisma ctx inside db s json dto) [
    | inl same ↦ rw same (rooted x)
    | inr (existing, found, acyclic, rows) ↦
        rw rows (moved-Rooted existing found acyclic dto.parent_id refl x)
  ]
