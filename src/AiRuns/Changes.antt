-- ===== src/AiRuns/Changes.antt =====
-- What a call of the service does to the table: nothing, a new row, or a move of one run.
use mujeeb24_backend_go.Common.{
  ℕ, String, ◌==◌, ◌≡◌, refl, Bool, true, false, not, ◌&&◌, ◌||◌, Result, ok, err, if-cases,
}
use mujeeb24_backend_go.AiRuns.{
  AiRunRecord, AiRunError, required_fields, unsupported_agent_role, invalid_failure_stage,
  invalid_failure_category, invalid_input, idempotency_violation, AiRuns, is_terminal_run_status,
  violates, create_run, get_by_idempotency_key,
}
use mujeeb24_backend_go.AiRuns.Lifecycle.{
  StartRunInput, received_run, resume_or_create, start_run, is_valid_failure_stage,
  is_valid_failure_category, failed_patch, mark_failed, Call, start, build_context, run_model,
  validate, authorize, execute, complete, cancel, fail, answer,
}
use mujeeb24_backend_go.Common.Text.{trim_space}
use mujeeb24_backend_go.AiRuns.Moves.{
  Change, any_terminal, authorized_trace, cancelled_trace, completed_trace, context_built_trace,
  created, executing_trace, failed_trace, is_allowed-open, kept, running_trace, transition-Change,
  validating_trace,
}

create_run-Change :
    (now : ℕ) (input : StartRunInput) (table : AiRuns)
    → Change table (create_run (received_run now input) table).1
unfolding create_run
create_run-Change now input table =
    if-cases {A = Result AiRunError AiRunRecord × AiRuns}
      ((input.new_run_id == "")
        || (input.business_id == "")
        || (input.idempotency_key == "")
        || (input.agent_role == ""))
      (err invalid_input, table) _ (λ r. Change table r.1) (λ blank. kept)
      (λ given.
        if-cases {A = Result AiRunError AiRunRecord × AiRuns}
          (violates (received_run now input) table) (err idempotency_violation, table) _
          (λ r. Change table r.1) (λ clash. kept) (λ fresh. created now input fresh))

resume_or_create-Change :
    (now : ℕ) (input : StartRunInput) (found : Result AiRunError AiRunRecord) (table : AiRuns)
    → Change table (resume_or_create now input found table).1
unfolding resume_or_create
resume_or_create-Change now input (err e) table = create_run-Change now input table
resume_or_create-Change now input (ok existing) table =
    if-cases {A = Result AiRunError AiRunRecord × AiRuns}
      (not (existing.id == "") && not (is_terminal_run_status existing.status)) (ok existing, table)
      _ (λ r. Change table r.1) (λ resumed. kept) (λ ended. create_run-Change now input table)

start_run-Change :
    (now : ℕ) (input : StartRunInput) (table : AiRuns) → Change table (start_run now input table).1
unfolding start_run
start_run-Change now input table =
    if-cases {A = Result AiRunError AiRunRecord × AiRuns}
      ((trim_space input.business_id == "") || (trim_space input.idempotency_key == ""))
      (err required_fields, table) _ (λ r. Change table r.1) (λ blank. kept)
      (λ given.
        if-cases {A = Result AiRunError AiRunRecord × AiRuns}
          (not (input.agent_role == "customer_sales")
            && not (input.agent_role == "merchant_catalog_authoring"))
          (err unsupported_agent_role, table) _ (λ r. Change table r.1) (λ other. kept)
          (λ known.
            resume_or_create-Change now input
              (get_by_idempotency_key input.business_id input.idempotency_key table) table))

not-eq_false : (b : Bool) → not b ≡ false → b ≡ true
not-eq_false true h = refl
not-eq_false false h = cc

mark_failed-Change :
    (now db_now : ℕ) (business_id run_id stage category reason : String) (table : AiRuns)
    → Change table (mark_failed now db_now business_id run_id stage category reason table).1
unfolding mark_failed any_terminal
mark_failed-Change now db_now business_id run_id stage category reason table =
    if-cases {A = Result AiRunError AiRunRecord × AiRuns} (not (is_valid_failure_stage stage))
      (err invalid_failure_stage, table) _ (λ r. Change table r.1) (λ bad. kept)
      (λ stage_known.
        if-cases {A = Result AiRunError AiRunRecord × AiRuns}
          (not (is_valid_failure_category category)) (err invalid_failure_category, table) _
          (λ r. Change table r.1) (λ bad. kept)
          (λ category_known.
            transition-Change db_now business_id run_id (failed_patch now stage category reason) _
              table refl
              (λ s r a h.
                failed_trace now db_now stage category reason s r (not-eq_false _ stage_known)
                  (not-eq_false _ category_known) (is_allowed-open s _ a refl) h)))

-- Every call changes the table by one step of `Change`.
pub answer-Change : (c : Call) (table : AiRuns) → Change table (answer c table).1
unfolding answer any_terminal
answer-Change (start now input) table = start_run-Change now input table
answer-Change (build_context now db_now business run) table =
    transition-Change db_now business run _ _ table refl (context_built_trace now db_now)
answer-Change (run_model now db_now business run) table =
    transition-Change db_now business run _ _ table refl (running_trace now db_now)
answer-Change (validate now db_now business run) table =
    transition-Change db_now business run _ _ table refl (validating_trace now db_now)
answer-Change (authorize now db_now business run) table =
    transition-Change db_now business run _ _ table refl (authorized_trace now db_now)
answer-Change (execute now db_now business run) table =
    transition-Change db_now business run _ _ table refl (executing_trace now db_now)
answer-Change (complete now db_now business run) table =
    transition-Change db_now business run _ _ table refl (completed_trace now db_now)
answer-Change (cancel now db_now business run) table =
    transition-Change db_now business run _ _ table refl (cancelled_trace now db_now)
answer-Change (fail now db_now business run stage category reason) table =
    mark_failed-Change now db_now business run stage category reason table
