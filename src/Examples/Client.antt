-- ===== src/Examples/Client.antt =====
-- Two requests that fail at once, and a page that looks at run 20.
use runboard.Prelude.{◌≡◌, refl, false, none, some, Option, List, [], ◌∷◌, arith}
use runboard.Schema.{Db, RunStatus, RunCaseResult, TestRun, TestRunCase}
use runboard.Prisma.{lists}
use runboard.Runs.Record.{RecordResultDto, record_result, name_of}
use runboard.Client.Api.{
  Client, ClientEvent, Config, sends, fails, settles, tokens, run, step, on_error,
}
use runboard.Client.Api.Sound.{IsSound, run-IsSound}
use runboard.Client.Cache.{RunCache, Recorder, on_events}
use runboard.Client.Cache.Fetch.{fetched, recorder_of}
use runboard.Client.Cache.Follows.{record_result-Follows, pending-Diverges}
use runboard.Examples.Data.{thousandths, tester_context, one_run, run_of, run_case_of}
use runboard.Examples.Runs.{pass_it}

abbrev request : Config
request = record { id = 1; is_auth = false; retried = false }

abbrev other : Config
other = record { id = 2; is_auth = false; retried = false }

abbrev both_fail : List ClientEvent
both_fail =
    sends request ∷ sends other ∷ fails request 401 ∷ fails other 401 ∷ settles (tokens 12 13) ∷ []

abbrev logged_in : Client
logged_in = record {
  access_token = some 10;
  refresh_token = some 11;
  in_flight_refresh = none;
  waiting = [];
  posted = [];
  sent = [];
  rejected = [];
}

logged_in-IsSound : IsSound logged_in
logged_in-IsSound = record { once = tt; settled = (tt, refl) }

-- One refresh, and both requests are sent again.
once_posted : (run both_fail logged_in).posted ≡ 11 ∷ []
unfolding run step on_error
once_posted = refl

run-IsSound_example : IsSound (run both_fail logged_in)
unfolding run step on_error
run-IsSound_example =
    run-IsSound both_fail logged_in (tt, (tt, (tt, (tt, ((omega arith, tt), tt)))))
      logged_in-IsSound

abbrev failed_case : TestRunCase
failed_case = run_case_of 30 20 RunCaseResult.fail

abbrev running : TestRun
running = record (run_of 20 RunStatus.in_progress 2 1) { started_at = some 5 }

abbrev back : RecordResultDto
back = record { result = RunCaseResult.pending; comment = none }

tess : name_of lists 7 one_run ≡ some "Tess"
unfolding name_of
tess = refl

abbrev page : Db → RunCache thousandths (λ r. r.id) lists tester_context
page = fetched thousandths (λ r. r.id) lists tester_context 1 20

record_result-Follows_example :
    on_events thousandths
      (λ r. r.id)
      lists
      tester_context
      (record_result thousandths lists tester_context 20 30 7 pass_it 99 one_run).2
      (page one_run)
    ≡ page (record_result thousandths lists tester_context 20 30 7 pass_it 99 one_run).1
record_result-Follows_example =
    record_result-Follows thousandths (λ r. r.id) lists tester_context refl 20 30 7 pass_it 99
      one_run running failed_case "Tess" refl refl refl refl tess refl (omega arith) refl

abbrev recorder : RunCache thousandths (λ r. r.id) lists tester_context → Option (Option Recorder)
recorder = recorder_of thousandths (λ r. r.id) lists tester_context 30

pending-Diverges_example :
    (recorder (
        on_events thousandths
          (λ r. r.id)
          lists
          tester_context
          (record_result thousandths lists tester_context 20 30 7 back 99 one_run).2
          (page one_run))
      ≡ some (some (record { id = 7; name = some "Tess" })))
    × (recorder (page (record_result thousandths lists tester_context 20 30 7 back 99 one_run).1)
        ≡ some none)
pending-Diverges_example =
    pending-Diverges thousandths (λ r. r.id) lists tester_context refl 20 30 7 back 99 one_run
      running failed_case "Tess" refl refl refl refl tess refl
