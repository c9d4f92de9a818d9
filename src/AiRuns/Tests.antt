-- ===== src/AiRuns/Tests.antt =====
-- Runs of the lifecycle on small tables.
use mujeeb24_backend_go.Common.{◌≡◌, refl, List, [], ◌∷◌, some, ok, err}
use mujeeb24_backend_go.Common.Text.{trim_space}
use mujeeb24_backend_go.AiRuns.{
  AiRunRecord, AiRuns, idempotency_violation, completed, create_run, get_run,
  get_by_idempotency_key, update_run_status,
}
use mujeeb24_backend_go.AiRuns.Lifecycle.{
  StartRunInput, received_run, Call, start, build_context, run_model, validate, authorize, execute,
  complete, fail, run_calls, answer, start_run, is_allowed, transition,
}
use mujeeb24_backend_go.AiRuns.Traced.{IsConsistent, run_calls-IsConsistent}
use mujeeb24_backend_go.AiRuns.Final.{run_calls-final}
use mujeeb24_backend_go.AiRuns.Live.{Started, start_run-Started}

abbrev message : StartRunInput
message = record {
  business_id = "b";
  conversation_id = "c";
  message_id = "m";
  source_event_id = "e";
  idempotency_key = "k";
  agent_role = "customer_sales";
  new_run_id = "r1";
}

abbrev again : StartRunInput
again = record message { new_run_id = "r2" }

abbrev whole_run : List Call
whole_run =
    start 1 message
    ∷ build_context 2 2 "b" "r1"
    ∷ run_model 3 3 "b" "r1"
    ∷ validate 4 4 "b" "r1"
    ∷ authorize 5 5 "b" "r1"
    ∷ execute 6 6 "b" "r1"
    ∷ complete 7 7 "b" "r1"
    ∷ []

abbrev ended_run : AiRunRecord
ended_run = record (received_run 1 message) {
  status = completed;
  context_built_at = some 2;
  running_started_at = some 3;
  validating_at = some 4;
  authorized_at = some 5;
  executing_at = some 6;
  completed_at = some 7;
  updated_at = 7;
}

whole_run_ends : run_calls whole_run [] ≡ ended_run ∷ []
unfolding run_calls start_run transition get_run create_run get_by_idempotency_key trim_space
    is_allowed update_run_status
whole_run_ends = refl

abbrev later_calls : List Call
later_calls =
    start 8 message ∷ start 9 again ∷ fail 10 10 "b" "r1" "execution" "timeout" "late" ∷ []

run_calls-final_example : get_run "b" "r1" (run_calls later_calls (ended_run ∷ [])) ≡ ok ended_run
unfolding get_run
run_calls-final_example = run_calls-final "b" "r1" ended_run later_calls (ended_run ∷ []) refl refl

run_calls-IsConsistent_example : IsConsistent (run_calls whole_run [])
run_calls-IsConsistent_example =
    run_calls-IsConsistent whole_run [] (record { traced = tt; unrivalled = tt })

abbrev ended_table : AiRuns
ended_table = ended_run ∷ []

ended_table-IsConsistent : IsConsistent ended_table
ended_table-IsConsistent = record {
  traced = ((tt, refl, refl, tt, tt, tt), tt);
  unrivalled = (tt, tt);
}

start_run-Started_example : Started 9 again ended_table (start_run 9 again ended_table)
start_run-Started_example = start_run-Started 9 again ended_table ended_table-IsConsistent

-- The database finds the ended run first, so a third start under the key of a run that has not ended
-- is refused.
third_start_refused :
    start_run 10 (record message { new_run_id = "r3" }) (ended_run ∷ received_run 9 again ∷ [])
    ≡ (err idempotency_violation, ended_run ∷ received_run 9 again ∷ [])
unfolding start_run create_run get_run get_by_idempotency_key trim_space
third_start_refused = refl

skipped_validation :
    (answer (execute 6 6 "b" "r1") (received_run 1 message ∷ [])).1 ≡ received_run 1 message ∷ []
unfolding answer transition get_run is_allowed
skipped_validation = refl
