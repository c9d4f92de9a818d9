-- ===== src/AiRuns/Lifecycle.antt =====
-- services/ai_run_lifecycle.go: the transitions of a run. Each is a read of the run and a write; calls
-- on one run follow one another. `now` is the clock of the service and `db_now` the database's.
use mujeeb24_backend_go.Common.{
  ℕ, String, ◌==◌, Bool, true, false, not, ◌&&◌, ◌||◌, List, [], ◌∷◌, none, some, Result, ok, err,
  has, if◌then◌else◌,
}
use mujeeb24_backend_go.Common.Text.{trim_space}
use mujeeb24_backend_go.AiRuns.{
  Status, received, context_built, running, waiting_tool, validating, authorized, executing,
  completed, failed, cancelled, AiRunRecord, AiRunStatusPatch, AiRunError, required_fields,
  unsupported_agent_role, invalid_failure_stage, invalid_failure_category, illegal_transition,
  AiRuns, is_terminal_run_status, get_run, create_run, update_run_status, get_by_idempotency_key,
}

pub record StartRunInput : Type 0 where
  pub business_id : String
  pub conversation_id : String
  pub message_id : String
  pub source_event_id : String
  pub idempotency_key : String
  pub agent_role : String
  -- what `NewRunID` returns
  pub new_run_id : String

abbrev pub received_run : ℕ → StartRunInput → AiRunRecord
received_run now input = record {
  id = input.new_run_id;
  business_id = input.business_id;
  conversation_id = input.conversation_id;
  message_id = input.message_id;
  source_event_id = input.source_event_id;
  idempotency_key = input.idempotency_key;
  agent_role = input.agent_role;
  status = received;
  failure_stage = "";
  failure_category = "";
  failure_reason = "";
  gemini_interaction_id = "";
  previous_interaction_id = "";
  started_at = now;
  context_built_at = none;
  running_started_at = none;
  waiting_tool_at = none;
  validating_at = none;
  authorized_at = none;
  executing_at = none;
  completed_at = none;
  failed_at = none;
  cancelled_at = none;
  created_at = now;
  updated_at = now;
}

-- An existing run is resumed unless it is terminal.
unfoldable pub resume_or_create :
    ℕ
    → StartRunInput
    → Result AiRunError AiRunRecord
    → AiRuns
    → Result AiRunError AiRunRecord × AiRuns
resume_or_create now input (err e) table = create_run (received_run now input) table
resume_or_create now input (ok existing) table =
    if not (existing.id == "") && not (is_terminal_run_status existing.status)
    then (ok existing, table)
    else create_run (received_run now input) table

unfoldable pub start_run : ℕ → StartRunInput → AiRuns → Result AiRunError AiRunRecord × AiRuns
unfolding resume_or_create
start_run now input table =
    if (trim_space input.business_id == "") || (trim_space input.idempotency_key == "")
    then (err required_fields, table)
    else if not (input.agent_role == "customer_sales")
        && not (input.agent_role == "merchant_catalog_authoring")
    then (err unsupported_agent_role, table)
    else resume_or_create now input
        (get_by_idempotency_key input.business_id input.idempotency_key table) table

unfoldable pub status_eq : Status → Status → Bool
status_eq received received = true
status_eq context_built context_built = true
status_eq running running = true
status_eq waiting_tool waiting_tool = true
status_eq validating validating = true
status_eq authorized authorized = true
status_eq executing executing = true
status_eq completed completed = true
status_eq failed failed = true
status_eq cancelled cancelled = true
status_eq _ _ = false

unfoldable pub is_allowed : Status → List Status → Bool
unfolding status_eq
is_allowed s [] = false
is_allowed s (a ∷ allowed_from) = status_eq s a || is_allowed s allowed_from

-- What follows the read of the run.
unfoldable pub transition_of :
    ℕ
    → String
    → String
    → AiRunStatusPatch
    → List Status
    → AiRuns
    → Result AiRunError AiRunRecord
    → Result AiRunError AiRunRecord × AiRuns
transition_of db_now business_id run_id patch allowed_from table (err e) = (err e, table)
transition_of db_now business_id run_id patch allowed_from table (ok run) =
    if is_allowed run.status allowed_from
    then update_run_status db_now business_id run_id patch table
    else (err (illegal_transition run.status patch.status), table)

unfoldable pub transition :
    ℕ
    → String
    → String
    → AiRunStatusPatch
    → List Status
    → AiRuns
    → Result AiRunError AiRunRecord × AiRuns
unfolding transition_of
transition db_now business_id run_id patch allowed_from table =
    transition_of db_now business_id run_id patch allowed_from table
      (get_run business_id run_id table)

abbrev pub status_patch : Status → AiRunStatusPatch
status_patch status = record {
  status = status;
  failure_stage = none;
  failure_category = none;
  failure_reason = none;
  gemini_interaction_id = none;
  previous_interaction_id = none;
  context_built_at = none;
  running_started_at = none;
  waiting_tool_at = none;
  validating_at = none;
  authorized_at = none;
  executing_at = none;
  completed_at = none;
  failed_at = none;
  cancelled_at = none;
}

module _ (now db_now : ℕ) (business_id run_id : String) where
  unfoldable pub mark_context_built : AiRuns → Result AiRunError AiRunRecord × AiRuns
  mark_context_built =
      transition db_now business_id run_id
        (record (status_patch context_built) { context_built_at = some now }) (received ∷ [])

  unfoldable pub mark_running : AiRuns → Result AiRunError AiRunRecord × AiRuns
  mark_running =
      transition db_now business_id run_id
        (record (status_patch running) { running_started_at = some now })
        (context_built ∷ waiting_tool ∷ [])

  unfoldable pub mark_validating : AiRuns → Result AiRunError AiRunRecord × AiRuns
  mark_validating =
      transition db_now business_id run_id
        (record (status_patch validating) { validating_at = some now }) (running ∷ [])

  unfoldable pub mark_authorized : AiRuns → Result AiRunError AiRunRecord × AiRuns
  mark_authorized =
      transition db_now business_id run_id
        (record (status_patch authorized) { authorized_at = some now }) (validating ∷ [])

  unfoldable pub mark_executing : AiRuns → Result AiRunError AiRunRecord × AiRuns
  mark_executing =
      transition db_now business_id run_id
        (record (status_patch executing) { executing_at = some now }) (authorized ∷ [])

  unfoldable pub mark_completed : AiRuns → Result AiRunError AiRunRecord × AiRuns
  mark_completed =
      transition db_now business_id run_id
        (record (status_patch completed) { completed_at = some now })
        (executing ∷ validating ∷ authorized ∷ [])

  unfoldable pub cancel_before_model : AiRuns → Result AiRunError AiRunRecord × AiRuns
  cancel_before_model =
      transition db_now business_id run_id
        (record (status_patch cancelled) { cancelled_at = some now })
        (received ∷ context_built ∷ [])

abbrev pub failure_stages : List String
failure_stages =
    "context_build" ∷ "gemini_request" ∷ "tool_call" ∷ "validation" ∷ "policy" ∷ "authorization"
    ∷ "execution" ∷ "unclassified" ∷ "" ∷ []

unfoldable pub is_valid_failure_stage : String → Bool
is_valid_failure_stage stage = has stage failure_stages

abbrev pub failure_categories : List String
failure_categories =
    "provider_temporary" ∷ "provider_permanent" ∷ "network" ∷ "timeout" ∷ "rate_limit"
    ∷ "invalid_ai_output" ∷ "invalid_tool_arguments" ∷ "tenant_violation" ∷ "invalid_reference"
    ∷ "policy_denial" ∷ "authorization_denial" ∷ "unsupported_action" ∷ "execution_failure"
    ∷ "infrastructure" ∷ "application_internal" ∷ "catalog_budget_exceeded" ∷ "catalog_data_error"
    ∷ "unclassified" ∷ "cancelled" ∷ "" ∷ []

unfoldable pub is_valid_failure_category : String → Bool
is_valid_failure_category category = has category failure_categories

abbrev pub failed_patch : ℕ → String → String → String → AiRunStatusPatch
failed_patch now stage category reason = record (status_patch failed) {
  failure_stage = some stage;
  failure_category = some category;
  failure_reason = some reason;
  failed_at = some now;
}

unfoldable pub mark_failed :
    ℕ
    → ℕ
    → String
    → String
    → String
    → String
    → String
    → AiRuns
    → Result AiRunError AiRunRecord × AiRuns
mark_failed now db_now business_id run_id stage category reason table =
    if not (is_valid_failure_stage stage)
    then (err invalid_failure_stage, table)
    else if not (is_valid_failure_category category)
    then (err invalid_failure_category, table)
    else transition db_now business_id run_id (failed_patch now stage category reason)
        (received ∷ context_built ∷ running ∷ waiting_tool ∷ validating ∷ authorized ∷ executing
          ∷ [])
        table

-- A call of the service.
pub data Call : Type 0 where
  start : ℕ → StartRunInput → Call
  build_context run_model validate authorize execute complete cancel :
      ℕ → ℕ → String → String → Call
  fail : ℕ → ℕ → String → String → String → String → String → Call

unfoldable pub answer : Call → AiRuns → Result AiRunError AiRunRecord × AiRuns
unfolding mark_context_built mark_running mark_validating mark_authorized mark_executing
    mark_completed cancel_before_model mark_failed
answer (start now input) table = start_run now input table
answer (build_context now db_now business run) table =
    mark_context_built now db_now business run table
answer (run_model now db_now business run) table = mark_running now db_now business run table
answer (validate now db_now business run) table = mark_validating now db_now business run table
answer (authorize now db_now business run) table = mark_authorized now db_now business run table
answer (execute now db_now business run) table = mark_executing now db_now business run table
answer (complete now db_now business run) table = mark_completed now db_now business run table
answer (cancel now db_now business run) table = cancel_before_model now db_now business run table
answer (fail now db_now business run stage category reason) table =
    mark_failed now db_now business run stage category reason table

-- The table after some calls, in their order.
unfoldable pub run_calls : List Call → AiRuns → AiRuns
unfolding answer
run_calls [] table = table
run_calls (c ∷ calls) table = run_calls calls (answer c table).1
