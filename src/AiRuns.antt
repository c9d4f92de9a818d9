-- ===== src/AiRuns.antt =====
-- The runs of the agents: internal/application/ports/ai_run_trace.go and the statements on ai_runs of
-- adapters/secondary/persistence/postgres/ai_run_trace_repository.go.
-- The table is the list of its rows in the order in which the database happens to find them. A new row
-- stands in front; no statement orders them. The statements themselves succeed, and identifiers have
-- the form that their columns want. Times are numbers.
pub mod Lifecycle
mod Rows
mod Moves
mod Changes
pub mod Final
pub mod Traced
pub mod Live
mod Tests
use mujeeb24_backend_go.Common.{
  ℕ, String, ◌==◌, Bool, true, false, not, ◌&&◌, ◌||◌, List, [], ◌∷◌, Option, none, some, Result,
  ok, err, if◌then◌else◌,
}

pub data Status : Type 0 where
  received context_built running waiting_tool validating authorized executing : Status
  completed failed cancelled : Status

pub record AiRunRecord : Type 0 where
  pub id : String
  pub business_id : String
  pub conversation_id : String
  pub message_id : String
  pub source_event_id : String
  pub idempotency_key : String
  pub agent_role : String
  pub status : Status
  pub failure_stage : String
  pub failure_category : String
  pub failure_reason : String
  pub gemini_interaction_id : String
  pub previous_interaction_id : String
  pub started_at : ℕ
  pub context_built_at : Option ℕ
  pub running_started_at : Option ℕ
  pub waiting_tool_at : Option ℕ
  pub validating_at : Option ℕ
  pub authorized_at : Option ℕ
  pub executing_at : Option ℕ
  pub completed_at : Option ℕ
  pub failed_at : Option ℕ
  pub cancelled_at : Option ℕ
  pub created_at : ℕ
  pub updated_at : ℕ

pub record AiRunStatusPatch : Type 0 where
  pub status : Status
  pub failure_stage : Option String
  pub failure_category : Option String
  pub failure_reason : Option String
  pub gemini_interaction_id : Option String
  pub previous_interaction_id : Option String
  pub context_built_at : Option ℕ
  pub running_started_at : Option ℕ
  pub waiting_tool_at : Option ℕ
  pub validating_at : Option ℕ
  pub authorized_at : Option ℕ
  pub executing_at : Option ℕ
  pub completed_at : Option ℕ
  pub failed_at : Option ℕ
  pub cancelled_at : Option ℕ

pub data AiRunError : Type 0 where
  required_fields unsupported_agent_role invalid_failure_stage invalid_failure_category : AiRunError
  illegal_transition : Status → Status → AiRunError
  no_rows idempotency_violation invalid_input : AiRunError

abbrev pub AiRuns : Type 0
AiRuns = List AiRunRecord

-- `isTerminalRunStatus`, and the condition of the index uq_ai_runs_idempotency.
abbrev pub is_terminal_run_status : Status → Bool
is_terminal_run_status completed = true
is_terminal_run_status failed = true
is_terminal_run_status cancelled = true
is_terminal_run_status _ = false

-- WHERE business_id=$1 AND id::text=$2
abbrev pub is_run : String → String → AiRunRecord → Bool
is_run business_id run_id r = (r.business_id == business_id) && (r.id == run_id)

abbrev pub has_key : String → String → AiRunRecord → Bool
has_key business_id key r = (r.business_id == business_id) && (r.idempotency_key == key)

-- The first row of a query.
pub query_row : (AiRunRecord → Bool) → AiRuns → Option AiRunRecord
query_row matches [] = none
query_row matches (r ∷ rows) = if matches r then some r else query_row matches rows

pub scanned : Option AiRunRecord → Result AiRunError AiRunRecord
scanned none = err no_rows
scanned (some r) = ok r

unfoldable pub get_run : String → String → AiRuns → Result AiRunError AiRunRecord
unfolding query_row scanned
get_run business_id run_id table = scanned (query_row (is_run business_id run_id) table)

-- The primary key, and the unique index on the keys of the runs that are not terminal.
abbrev pub clashes : AiRunRecord → AiRunRecord → Bool
clashes new r =
    (r.id == new.id)
    || (has_key new.business_id new.idempotency_key r && not (is_terminal_run_status r.status))

pub violates : AiRunRecord → AiRuns → Bool
violates new [] = false
violates new (r ∷ rows) = clashes new r || violates new rows

unfoldable pub create_run : AiRunRecord → AiRuns → Result AiRunError AiRunRecord × AiRuns
unfolding violates
create_run run table =
    if (run.id == "")
      || (run.business_id == "")
      || (run.idempotency_key == "")
      || (run.agent_role == "")
    then (err invalid_input, table)
    else if violates run table
    then (err idempotency_violation, table)
    else (get_run run.business_id run.id (run ∷ table), run ∷ table)

abbrev pub coalesce {ℓ} : {A : Type ℓ} → Option A → Option A → Option A
coalesce none old = old
coalesce (some new) old = some new

abbrev pub coalesce_text : Option String → String → String
coalesce_text none old = old
coalesce_text (some new) old = new

abbrev pub set_status : ℕ → AiRunStatusPatch → AiRunRecord → AiRunRecord
set_status db_now patch r = record r {
  status = patch.status;
  failure_stage = coalesce_text patch.failure_stage r.failure_stage;
  failure_category = coalesce_text patch.failure_category r.failure_category;
  failure_reason = coalesce_text patch.failure_reason r.failure_reason;
  gemini_interaction_id = coalesce_text patch.gemini_interaction_id r.gemini_interaction_id;
  previous_interaction_id = coalesce_text patch.previous_interaction_id r.previous_interaction_id;
  context_built_at = coalesce patch.context_built_at r.context_built_at;
  running_started_at = coalesce patch.running_started_at r.running_started_at;
  waiting_tool_at = coalesce patch.waiting_tool_at r.waiting_tool_at;
  validating_at = coalesce patch.validating_at r.validating_at;
  authorized_at = coalesce patch.authorized_at r.authorized_at;
  executing_at = coalesce patch.executing_at r.executing_at;
  completed_at = coalesce patch.completed_at r.completed_at;
  failed_at = coalesce patch.failed_at r.failed_at;
  cancelled_at = coalesce patch.cancelled_at r.cancelled_at;
  updated_at = db_now;
}

pub set_rows : (AiRunRecord → Bool) → (AiRunRecord → AiRunRecord) → AiRuns → AiRuns
set_rows matches set [] = []
set_rows matches set (r ∷ rows) = (if matches r then set r else r) ∷ set_rows matches set rows

pub affected : Option AiRunRecord → Result AiRunError AiRunRecord → Result AiRunError AiRunRecord
affected none read = err no_rows
affected (some r) read = read

unfoldable pub update_run_status :
    ℕ → String → String → AiRunStatusPatch → AiRuns → Result AiRunError AiRunRecord × AiRuns
unfolding set_rows affected
update_run_status db_now business_id run_id patch table =
    let rows = set_rows (is_run business_id run_id) (set_status db_now patch) table in
    (affected (query_row (is_run business_id run_id) table) (get_run business_id run_id rows), rows)

-- `LIMIT 1`: the row that the database finds first.
unfoldable pub get_by_idempotency_key : String → String → AiRuns → Result AiRunError AiRunRecord
unfolding query_row
get_by_idempotency_key business_id key table = elim (query_row (has_key business_id key) table) [
  | none ↦ err no_rows
  | some r ↦ get_run business_id r.id table
]
