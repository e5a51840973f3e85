-- ===== src/Examples/Members.antt =====
-- Members: user 7 is the only administrator of organisation 1.
use text.Mathlib.Text.{◌==◌ as str_eq}
use runboard.Prelude.{◌≡◌, refl, arith, String, some, [], ◌∷◌, if◌then◌else◌}
use runboard.Schema.{Role}
use runboard.Prelude.{none}
use runboard.Schema.{Db, Membership}
use runboard.Exec.{ok, err}
use runboard.Context.{RequestContext}
use runboard.Guards.{AuthenticatedUser, forbidden}
use runboard.Guards.Access.{authorize}
use runboard.Tenant.{all_operations}
use runboard.Tenant.Client.{find_unique, count_rows, update_row}
use runboard.Audit.{record_scoped}
use runboard.Members.{update_role_tx}
use runboard.Members.Demotion.{authorize-update_role}
use runboard.Prisma.{lists}
use runboard.Members.{update_role, remove}
use runboard.Members.LastAdmin.{HasAdmin, update_role-HasAdmin, remove-HasAdmin}
use runboard.Audit.Diff.{diff_fields}
use runboard.Audit.Diff.Exact.{entry, entry-diff_fields}
use runboard.Examples.Data.{tester_context, one_run}

update_role-HasAdmin_example :
    HasAdmin 1 (update_role lists tester_context 7 Role.viewer one_run).1.memberships
update_role-HasAdmin_example =
    update_role-HasAdmin lists tester_context refl 7 one_run (omega arith) 1 (omega arith)
      Role.viewer

remove-HasAdmin_example : HasAdmin 1 (remove lists tester_context 7 one_run).1.memberships
remove-HasAdmin_example =
    remove-HasAdmin lists tester_context refl 7 one_run (omega arith) 1 (omega arith)

abbrev old_case : String → String
old_case field = if str_eq field "title" then "Log in" else "same"

abbrev new_case : String → String
new_case field = if str_eq field "title" then "Log out" else "same"

entry-diff_fields_example :
    entry "title" (diff_fields old_case new_case ("title" ∷ "priority" ∷ []))
    ≡ some ("Log in", "Log out")
entry-diff_fields_example = entry-diff_fields old_case new_case "title" ("title" ∷ "priority" ∷ [])

abbrev second : Membership
second = record { id = 71; organization_id = 1; user_id = 8; role = Role.admin }

abbrev two_admins : Db
two_admins = record one_run { memberships = second ∷ one_run.memberships }

abbrev demoted : Db
demoted = (update_role lists tester_context 8 Role.viewer two_admins).1

abbrev second_user : AuthenticatedUser
second_user = record { id = 8; email = "s@example.com" }

abbrev no_request : RequestContext
no_request = record {
  user_id = none;
  actor_email = none;
  organization_id = none;
  role = none;
  ip = none;
  user_agent = none;
}

demotion_answered :
    (update_role lists tester_context 8 Role.viewer two_admins).0
    ≡ ok (record second { role = Role.viewer })
unfolding update_role update_role_tx find_unique count_rows update_row record_scoped all_operations
    diff_fields
demotion_answered = refl

authorize-update_role_example :
    authorize lists no_request 1 second_user (some Role.qa_lead) demoted ≡ (err forbidden, demoted)
authorize-update_role_example =
    authorize-update_role lists tester_context refl two_admins 8 Role.viewer (omega arith)
      (record second { role = Role.viewer }) no_request second_user (some Role.qa_lead)
      demotion_answered refl
