-- ===== src/Examples/Guards.antt =====
-- Guards: the tester 7 asks for a route of the leads, and for a run that others are assigned to.
use runboard.Prelude.{◌≡◌, none, some}
use runboard.Schema.{Role}
use runboard.Exec.{ok}
use runboard.Context.{RequestContext}
use runboard.Prisma.{lists}
use runboard.Guards.{AuthenticatedUser}
use runboard.Guards.Access.{admit, admit_lem, context_as}
use runboard.Examples.Data.{one_run}

abbrev store : RequestContext
store = record {
  user_id = none;
  actor_email = none;
  organization_id = none;
  role = none;
  ip = none;
  user_agent = none;
}

abbrev tess : AuthenticatedUser
tess = record { id = 7; email = "t@example.com" }

admit_lem_example :
    admit lists store (some Role.qa_lead) (some 1) (some tess) one_run
    ≡ (ok (some (context_as lists store 1 tess (some Role.qa_lead) Role.admin)), one_run)
admit_lem_example = admit_lem lists store (some Role.qa_lead) (some 1) (some tess) one_run
