-- ===== src/Catalog/Batches.antt =====
-- One batch of services/catalog_batch_controller.go, from its record to its candidates: the body
-- that the loops of `runPagedCatalogEvaluation` and `reduceCandidateRound` share.
pub mod Life
use mujeeb24_backend_go.Common.{
  ℕ, String, ◌==◌, Bool, true, false, List, [], ◌∷◌, ◌++◌, Option, none, some, Result, ok, err,
  length, ◌+◌, if◌then◌else◌,
}
use mujeeb24_backend_go.Catalog.Projection.{CatalogAiProjection, CatalogAiBatchPayload}
use mujeeb24_backend_go.Catalog.Session.{
  CatalogBatchCandidate, CatalogBatchResult, CandidateError, AiCatalogBatchRecord,
  AiCatalogBatchPatch, CatalogEvaluationInput, BatchEvaluationInput, Call, Session, Controller,
  Phase, batch_phase, candidate_reduction_batch_phase, pure, fail, ignore, perform, ◌>>=◌, ◌>>◌,
  port, invalid_evidence, create_catalog_batch, update_catalog_batch, evaluate_batch,
  record_batch_usage,
}
use mujeeb24_backend_go.Catalog.Candidates.{validate_batch_candidates}

-- `coverageComplete`
unfoldable pub coverage_complete : List AiCatalogBatchRecord → Bool
coverage_complete [] = true
coverage_complete (r ∷ rs) = if r.status == "completed" then coverage_complete rs else false

-- `countCompleted`
unfoldable pub count_completed : List AiCatalogBatchRecord → ℕ
count_completed [] = 0
count_completed (r ∷ rs) = (if r.status == "completed" then 1 else 0) + count_completed rs

abbrev pub running_patch : ℕ → AiCatalogBatchPatch
running_patch now = record {
  status = "running";
  candidate_count = none;
  failure_reason = none;
  started_at = some now;
  completed_at = none;
}

abbrev pub completed_patch : ℕ → ℕ → AiCatalogBatchPatch
completed_patch count now = record {
  status = "completed";
  candidate_count = some count;
  failure_reason = none;
  started_at = none;
  completed_at = some now;
}

abbrev pub failed_patch : String → ℕ → AiCatalogBatchPatch
failed_patch reason now = record {
  status = "failed";
  candidate_count = none;
  failure_reason = some reason;
  started_at = none;
  completed_at = some now;
}

module _ {Context Contract Usage Decision : Type 0} (c : Controller Context Contract Usage Decision)
    (input : CatalogEvaluationInput Context Contract) where
  abbrev pub new_record :
      CatalogAiBatchPayload → List (Call Context Contract Usage) → AiCatalogBatchRecord
  new_record batch h = record {
    id = c.new_id h;
    ai_run_id = input.ai_run_id;
    batch_number = batch.batch_number;
    status = "pending";
    items_count = length batch.items;
    schemas_count = length batch.attribute_schemas;
    created_at = c.now h;
    updated_at = c.now h;
  }

  pub create_batch_record :
      CatalogAiBatchPayload → Session (Call Context Contract Usage) AiCatalogBatchRecord
  create_batch_record batch h =
      perform (create_catalog_batch (new_record batch h)) (c.created (new_record batch h)) h

  pub update_batch : String → AiCatalogBatchPatch → Session (Call Context Contract Usage) (Unit {0})
  update_batch id patch = perform (update_catalog_batch id patch) (c.updated id patch)

  pub mark_batch_running : String → Session (Call Context Contract Usage) (Unit {0})
  mark_batch_running id h = update_batch id (running_patch (c.now h)) h

  pub mark_batch_completed : String → ℕ → Session (Call Context Contract Usage) (Unit {0})
  mark_batch_completed id count h = update_batch id (completed_patch count (c.now h)) h

  pub mark_batch_failed : String → String → Session (Call Context Contract Usage) (Unit {0})
  mark_batch_failed id reason h = update_batch id (failed_patch reason (c.now h)) h

  -- The request of a batch in the two loops.
  pub evaluation_input : Bool → CatalogAiBatchPayload → BatchEvaluationInput Context Contract
  evaluation_input reduction batch = record {
    ai_run_id = input.ai_run_id;
    attempt_id = input.attempt_id;
    batch_number = batch.batch_number;
    business_id = input.business_id;
    conversation_id = input.conversation_id;
    customer_message = input.customer_message;
    conversation_context = input.conversation_context;
    entity_contract = input.entity_contract;
    batch = batch;
    reduction = reduction;
  }

  -- `EvaluateBatch`, and `markBatchFailed` when it fails.
  pub evaluate :
      Bool
      → CatalogAiBatchPayload
      → String
      → Session (Call Context Contract Usage) (CatalogBatchResult Usage)
  evaluate reduction batch id h =
      let request = evaluation_input reduction batch in
      elim (c.evaluated request h) [
        | ok result ↦ (ok result, evaluate_batch request ∷ h)
        | err e ↦ (err (port e), (mark_batch_failed id e (evaluate_batch request ∷ h)).1)
      ]

  -- `recordBatchUsage`: whether it stores a usage. Its pricing and its own calls count as one call,
  -- whose error it drops.
  unfoldable pub record_usage : Usage → Phase → Session (Call Context Contract Usage) (Unit {0})
  record_usage usage phase h = (
    ok tt,
    if c.records_usage
        then record_batch_usage input.business_id input.ai_run_id usage phase ∷ h
        else h,
  )

  abbrev pub phase_of : Bool → ℕ → Phase
  phase_of false n = batch_phase n
  phase_of true n = candidate_reduction_batch_phase n

  -- What is done with the candidates once they are checked.
  pub after_check :
      CatalogAiBatchPayload
      → String
      → List CatalogBatchCandidate
      → Result CandidateError (Unit {0})
      → Session (Call Context Contract Usage) (List CatalogBatchCandidate)
  after_check batch id candidates (ok _) =
      mark_batch_completed id (length candidates) >> pure candidates
  after_check batch id candidates (err e) =
      ignore (mark_batch_failed id (c.error_text e)) >> fail (invalid_evidence batch.batch_number e)

  abbrev pub finish :
      AiCatalogBatchRecord
      → List CatalogBatchCandidate
      → Session (Call Context Contract Usage) (AiCatalogBatchRecord × List CatalogBatchCandidate)
  finish rec candidates = pure (record rec { status = "completed" }, candidates)

  -- The usage is recorded before the evidence is checked.
  pub after_evaluation :
      Bool
      → CatalogAiBatchPayload
      → AiCatalogBatchRecord
      → CatalogBatchResult Usage
      → Session (Call Context Contract Usage) (AiCatalogBatchRecord × List CatalogBatchCandidate)
  after_evaluation reduction batch rec result =
      record_usage result.usage (phase_of reduction batch.batch_number)
      >> (after_check batch rec.id result.candidates
            (validate_batch_candidates batch result.candidates)
          >>= finish rec)

  pub after_record :
      Bool
      → CatalogAiBatchPayload
      → AiCatalogBatchRecord
      → Session (Call Context Contract Usage) (AiCatalogBatchRecord × List CatalogBatchCandidate)
  after_record reduction batch rec =
      mark_batch_running rec.id
      >> (evaluate reduction batch rec.id >>= after_evaluation reduction batch rec)

  -- A batch that is accepted: its record, then `completed`, and its candidates.
  pub run_batch :
      Bool
      → CatalogAiBatchPayload
      → Session (Call Context Contract Usage) (AiCatalogBatchRecord × List CatalogBatchCandidate)
  run_batch reduction batch = create_batch_record batch >>= after_record reduction batch

-- What a run of a batch unfolds.
unfoldable pub batches_code : Unit {0}
unfolding coverage_complete count_completed create_batch_record update_batch mark_batch_running
    mark_batch_completed mark_batch_failed evaluation_input evaluate record_usage after_check
    after_evaluation after_record run_batch
batches_code = tt
