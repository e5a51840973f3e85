-- ===== src/Examples/Tenant.antt =====
-- Tenant scoping: a request inside organisation 1 and a run of organisation 2.
use runboard.Prelude.{◌≡◌, refl, true, [], ◌∷◌, keep, All}
use runboard.Schema.{RunStatus, TestRun}
use runboard.Prisma.{lists}
use runboard.Tenant.{Query, delete, read, answer_many, all_operations, apply_tenant_scope}
use runboard.Tenant.Tables.{runs}
use runboard.Tenant.Isolation.{is_foreign, tenant_write_isolated, tenant_read_isolated}
use runboard.Examples.Data.{tester_context, run_of}

abbrev foreign_run : TestRun
foreign_run = record (run_of 40 RunStatus.planned 0 0) { organization_id = 2 }

abbrev own_run : TestRun
own_run = run_of 41 RunStatus.planned 0 0

abbrev all_rows : Query TestRun
all_rows = delete (λ _. true)

tenant_write_isolated_example :
    keep (is_foreign runs 1) (foreign_run ∷ [])
    ≡ keep (is_foreign runs 1) (own_run ∷ foreign_run ∷ [])
unfolding all_operations
tenant_write_isolated_example =
    tenant_write_isolated lists tester_context runs refl refl (λ row. refl) all_rows
      (apply_tenant_scope runs all_rows 1) (own_run ∷ foreign_run ∷ []) (foreign_run ∷ []) tt refl
      refl

tenant_read_isolated_example :
    All
      (λ (r : TestRun). r.organization_id ≡ 1)
      (answer_many lists runs
        (apply_tenant_scope runs (read (λ _. true)) 1)
        (own_run ∷ foreign_run ∷ []))
unfolding all_operations
tenant_read_isolated_example =
    tenant_read_isolated lists tester_context runs refl refl (λ _. true)
      (apply_tenant_scope runs (read (λ _. true)) 1) (own_run ∷ foreign_run ∷ []) refl
