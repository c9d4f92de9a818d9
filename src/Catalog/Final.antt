-- ===== src/Catalog/Final.antt =====
-- `runFinalEvaluation` and `reduceCandidateRound` of services/catalog_batch_controller.go.
pub mod Reduce
pub mod Outcome
pub mod Answer
use mujeeb24_backend_go.Common.{
  ℕ, zero, suc, ◌+◌, String, Bool, true, false, ◌&&◌, List, [], ◌∷◌, ◌++◌, ok, err, length, leb,
  if◌then◌else◌,
}
use mujeeb24_backend_go.Common.Int.{ℤ, pos, leb_ℤ, ltb_ℤ}
use mujeeb24_backend_go.Catalog.Projection.{
  CatalogAiItem, CatalogAiProjection, CatalogAiBatchPayload,
}
use mujeeb24_backend_go.Catalog.Session.{
  CatalogBatchCandidate, CatalogEvaluationInput, FinalEvaluationInput, Call, Session, Controller,
  final_evaluation_phase, pure, fail, perform, ◌>>=◌, ◌>>◌, base_context_exceeds_budget,
  no_token_progress, reduction_rounds_exceeded, capability_not_terminal, cancelled, out_of_fuel,
  count_final_tokens, final_evaluate,
}
use mujeeb24_backend_go.Catalog.Split.{effective_budget, split_into_batches_mode}
use mujeeb24_backend_go.Catalog.Candidates.{normalize_batch_candidates, append_candidate_projection}
use mujeeb24_backend_go.Catalog.Batches.{run_batch, record_usage}

abbrev pub no_projection : CatalogAiProjection
no_projection = record { catalogs = []; attribute_schemas = []; items = [] }

-- The batch that the source builds of a projection to select from it.
abbrev pub as_batch : CatalogAiProjection → CatalogAiBatchPayload
as_batch p = record {
  batch_number = 0;
  catalogs = p.catalogs;
  attribute_schemas = p.attribute_schemas;
  items = p.items;
}

abbrev pub max_reduction_rounds : ℕ
max_reduction_rounds = 3

abbrev pub no_items : List CatalogAiItem → Bool
no_items [] = true
no_items (x ∷ xs) = false

module _ {Context Contract Usage Decision : Type 0} (c : Controller Context Contract Usage Decision)
    (input : CatalogEvaluationInput Context Contract) where
  -- The loop of `reduceCandidateRound`.
  pub reduce_batches :
      List CatalogAiBatchPayload
      → List CatalogBatchCandidate
      → CatalogAiProjection
      → List String
      → Session (Call Context Contract Usage) (List CatalogBatchCandidate × CatalogAiProjection)
  reduce_batches [] reduced target seen = pure (reduced, target)
  reduce_batches (b ∷ bs) reduced target seen = run_batch c input true b >>= λ r.
      let next = append_candidate_projection target b r.1 seen in
      reduce_batches bs (reduced ++ r.1) next.0 next.1

  pub reduce_candidate_round :
      CatalogAiProjection
      → ℕ
      → Session (Call Context Contract Usage) (List CatalogBatchCandidate × CatalogAiProjection × ℕ)
  reduce_candidate_round projection start =
      split_into_batches_mode c input projection true start >>= λ batches.
      reduce_batches batches [] no_projection [] >>= λ r.
      pure (normalize_batch_candidates r.0, r.1, start + length batches)

  -- `buildFinalEvaluationPayload`: the prompt prints the request and the projection.
  pub final_input : List CatalogBatchCandidate → FinalEvaluationInput Context Contract
  final_input candidates = record {
    source_message_reference = input.source_message_reference;
    ai_run_id = input.ai_run_id;
    attempt_id = input.attempt_id;
    business_id = input.business_id;
    conversation_id = input.conversation_id;
    customer_message = input.customer_message;
    conversation_context = input.conversation_context;
    entity_contract = input.entity_contract;
    candidate_results = candidates;
  }

  -- The call of the final model, and what is done with its answer.
  pub accept_answer :
      CatalogAiProjection
      → Decision × Usage
      → Session (Call Context Contract Usage) (Decision × CatalogAiProjection)
  accept_answer projection (decision, usage) =
      if c.is_terminal decision
      then (record_usage c input usage final_evaluation_phase >> pure (decision, projection))
      else fail capability_not_terminal

  pub final_answer :
      List CatalogBatchCandidate
      → CatalogAiProjection
      → Session (Call Context Contract Usage) (Decision × CatalogAiProjection)
  final_answer candidates projection =
      perform (final_evaluate (final_input candidates) projection)
        (c.final_answer (final_input candidates) projection)
      >>= accept_answer projection

  -- The guards on a request that exceeds the budget; `reduce` is the round and the rest.
  pub oversize :
      ℕ
      → ℤ
      → CatalogAiProjection
      → ℤ
      → Session (Call Context Contract Usage) (Decision × CatalogAiProjection)
      → Session (Call Context Contract Usage) (Decision × CatalogAiProjection)
  oversize rounds last projection tokens reduce =
      if no_items projection.items
      then fail (base_context_exceeds_budget (effective_budget c.token_budget) tokens)
      else if ltb_ℤ (pos 0) last && leb_ℤ last tokens
      then fail (no_token_progress last tokens)
      else if leb max_reduction_rounds rounds
      then fail (reduction_rounds_exceeded tokens)
      else reduce

  pub after_final_count :
      ℕ
      → ℤ
      → List CatalogBatchCandidate
      → CatalogAiProjection
      → (ℤ → Session (Call Context Contract Usage) (Decision × CatalogAiProjection))
      → ℤ
      → Session (Call Context Contract Usage) (Decision × CatalogAiProjection)
  after_final_count rounds last candidates projection again tokens =
      if leb_ℤ tokens (effective_budget c.token_budget)
      then final_answer candidates projection
      else oversize rounds last projection tokens (again tokens)

  pub count_final :
      List CatalogBatchCandidate → CatalogAiProjection → Session (Call Context Contract Usage) ℤ
  count_final candidates projection =
      perform (count_final_tokens (final_input candidates) projection)
        (c.final_tokens (final_input candidates) projection)

  -- `if err := ctx.Err(); err != nil { return err }`
  pub unless_cancelled :
      {A : Type 0}
      → Session (Call Context Contract Usage) A
      → Session (Call Context Contract Usage) A
  unless_cancelled rest h = if c.context_cancelled h then (err cancelled, h) else rest h

  -- The body of the loop; `again` is the reduction and the rest, given the tokens counted.
  pub final_round :
      ℕ
      → ℤ
      → List CatalogBatchCandidate
      → CatalogAiProjection
      → (ℤ → Session (Call Context Contract Usage) (Decision × CatalogAiProjection))
      → Session (Call Context Contract Usage) (Decision × CatalogAiProjection)
  final_round rounds last candidates projection again = unless_cancelled (
      if c.estimates_final
      then (count_final candidates projection
          >>= after_final_count rounds last candidates projection again)
      else final_answer candidates projection)

  -- The loop of `runFinalEvaluation`. It passes the guard on the rounds at most three times.
  pub final_loop :
      ℕ
      → ℕ
      → ℤ
      → List CatalogBatchCandidate
      → CatalogAiProjection
      → ℕ
      → Session (Call Context Contract Usage) (Decision × CatalogAiProjection)
  final_loop zero rounds last candidates projection next = fail out_of_fuel
  final_loop (suc fuel) rounds last candidates projection next =
      final_round rounds last candidates projection (λ tokens.
        reduce_candidate_round projection next >>= λ r.
        final_loop fuel (rounds + 1) tokens (normalize_batch_candidates r.0) r.1 r.2)

  abbrev pub first_positive : ℕ → ℕ
  first_positive zero = 1
  first_positive (suc n) = suc n

  unfoldable pub run_final_evaluation :
      List CatalogBatchCandidate
      → CatalogAiProjection
      → ℕ
      → Session (Call Context Contract Usage) (Decision × CatalogAiProjection)
  run_final_evaluation candidates projection start =
      let normal = normalize_batch_candidates candidates in
      final_loop (suc max_reduction_rounds) 0 (pos 0) normal
        (append_candidate_projection no_projection (as_batch projection) normal []).0
        (first_positive start)

-- What a run of the final evaluation unfolds.
unfoldable pub final_code : Unit {0}
unfolding reduce_batches reduce_candidate_round final_input accept_answer final_answer oversize
    after_final_count count_final unless_cancelled final_round final_loop run_final_evaluation
final_code = tt
