-- ===== src/Examples/Routes.antt =====
-- A VIEWER of organisation 1 asks for the end of run 20.
use runboard.Prelude.{◌≡◌, refl, false, none, [], ◌∷◌}
use runboard.Schema.{Db, Role}
use runboard.Exec.{err}
use runboard.Context.{RequestContext}
use runboard.Dto.{Json}
use runboard.Prisma.{lists}
use runboard.Guards.{AuthenticatedUser, forbidden}
use runboard.Runs.Status.{Target}
use runboard.Routes.{of_runs, Route, Env, serve, update_run_status}
use runboard.Routes.Viewer.{serve-Harmless}
use runboard.Examples.Data.{thousandths, one_run}

abbrev with_viewer : Db
with_viewer = record one_run {
  memberships = record { id = 71; organization_id = 1; user_id = 8; role = Role.viewer } ∷ [];
}

abbrev no_json : Json
no_json = record {
  of_string = λ s. s;
  of_number = λ n. "";
  of_id = λ id. "";
  of_steps = λ steps. "";
  of_priority = λ p. "";
  of_severity = λ s. "";
  of_status = λ s. "";
}

abbrev env : Env
env = record {
  floats = thousandths;
  prisma = lists;
  json = no_json;
  now = 99;
  id = 90;
  case_ids = λ n. n;
  raw_token = "t";
  invitation_ttl = 1;
  hash_token = λ t. t;
  cascade_suite = λ id db. db;
  unlink_case = λ id db. db;
  contains_insensitive = λ q title. false;
  case_updated = λ c. c.id;
  run_created = λ r. r.id;
  bug_created = λ b. b.id;
  log_id = λ log. 0;
  log_created = λ log. 0;
}

abbrev vera : AuthenticatedUser
vera = record { id = 8; email = "v@example.com" }

abbrev store : RequestContext
store = record {
  user_id = none;
  actor_email = none;
  organization_id = none;
  role = none;
  ip = none;
  user_agent = none;
}

abbrev ending : Route
ending = of_runs (update_run_status 20 Target.complete)

serve-Harmless_example :
    (serve env 1 vera store ending with_viewer ≡ (err forbidden, with_viewer))
    × ((serve env 1 vera store ending with_viewer).1 ≡ with_viewer)
serve-Harmless_example = serve-Harmless env 1 vera store with_viewer _ refl refl ending
