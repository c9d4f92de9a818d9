-- ===== src/Catalog/Final/Answer.antt =====
-- What `runFinalEvaluation` returns, and how it fails.
use mathlib.Core.Path.{subst}
use mujeeb24_backend_go.Common.{
  ℕ, zero, suc, ◌+◌, ◌≤◌, ◌<◌, ◌≡◌, refl, inl, inr, Bool, true, false, List, [], ok, err, arith,
  if◌then◌else◌,
}
use mujeeb24_backend_go.Common.Int.{ℤ, pos, leb_ℤ}
use mujeeb24_backend_go.Catalog.Projection.{CatalogAiProjection}
use mujeeb24_backend_go.Catalog.Session.{
  CatalogBatchCandidate, CatalogEvaluationInput, Call, Session, Controller, ◌>>=◌, cancelled,
  bind_case, perform_case, count_final_tokens,
}
use mujeeb24_backend_go.Catalog.Split.{effective_budget}
use mujeeb24_backend_go.Catalog.Split.Exact.{leb_ℤ→le}
use mujeeb24_backend_go.Catalog.Candidates.{append_candidate_projection, normalize_batch_candidates}
use mujeeb24_backend_go.Catalog.Candidates.Select.{append_candidate_projection-In}
use mujeeb24_backend_go.Catalog.Final.{
  no_projection, as_batch, max_reduction_rounds, reduce_candidate_round, final_input, final_answer,
  oversize, after_final_count, count_final, unless_cancelled, final_round, final_loop,
  run_final_evaluation,
}
use mujeeb24_backend_go.Catalog.Final.Reduce.{Reduced, reduce_candidate_round-Reduced}
use mujeeb24_backend_go.Catalog.Final.Outcome.{
  FinalResult, Outcome, Within, RoundsTo, RoundsTo-Within, FinalResult-round,
  BatchFailure-FinalFailure, final_answer-Outcome, oversize-Outcome,
}

module _ {Context Contract Usage Decision : Type 0} (c : Controller Context Contract Usage Decision)
    (input : CatalogEvaluationInput Context Contract) where
  after_final_count-Outcome :
      (rounds : ℕ) (last tokens : ℤ) (candidates : List CatalogBatchCandidate)
      (p : CatalogAiProjection)
      (again : ℤ → Session (Call Context Contract Usage) (Decision × CatalogAiProjection))
      (h k : List (Call Context Contract Usage))
      → c.final_tokens (final_input c input candidates) p h ≡ ok tokens
      → rounds ≤ 3
      → (rounds < max_reduction_rounds → Outcome c input rounds p (again tokens k))
      → Outcome c input rounds p (after_final_count c input rounds last candidates p again tokens k)
  unfolding after_final_count
  after_final_count-Outcome rounds last tokens candidates p again h k e few reduced =
      by_size (leb_ℤ tokens (effective_budget c.token_budget)) refl
    where
      by_size :
          (b : Bool)
          → leb_ℤ tokens (effective_budget c.token_budget) ≡ b
          → Outcome c input rounds p (
              (if b
                  then final_answer c input candidates p
                  else oversize c input rounds last p tokens (again tokens))
                k)
      by_size true fits =
          final_answer-Outcome c input rounds candidates p k few
            (inr (h, tokens, e, leb_ℤ→le tokens _ fits))
      by_size false large =
          oversize-Outcome c input rounds last tokens p (again tokens) k large few reduced

  final_round-Outcome :
      (rounds : ℕ) (last : ℤ) (candidates : List CatalogBatchCandidate) (p : CatalogAiProjection)
      (again : ℤ → Session (Call Context Contract Usage) (Decision × CatalogAiProjection))
      (h : List (Call Context Contract Usage))
      → rounds ≤ 3
      → (rounds < max_reduction_rounds
          → (tokens : ℤ) (k : List (Call Context Contract Usage))
          → Outcome c input rounds p (again tokens k))
      → Outcome c input rounds p (final_round c input rounds last candidates p again h)
  unfolding final_round unless_cancelled count_final
  final_round-Outcome rounds last candidates p again h few reduced =
      by_tests (c.context_cancelled h) c.estimates_final refl refl
    where
      by_tests :
          (stopped estimates : Bool)
          → c.context_cancelled h ≡ stopped
          → c.estimates_final ≡ estimates
          → Outcome c input rounds p (
              if stopped
              then (err cancelled, h)
              else (if estimates
                    then count_final c input candidates p
                      >>= after_final_count c input rounds last candidates p again
                    else final_answer c input candidates p)
                  h)
      by_tests true estimates s e = (h, s)
      by_tests false false s e = final_answer-Outcome c input rounds candidates p h few (inl e)
      by_tests false true s e =
          perform_case (count_final_tokens (final_input c input candidates) p)
            (c.final_tokens (final_input c input candidates) p)
            (after_final_count c input rounds last candidates p again) h (Outcome c input rounds p)
            (λ x e'. inr (inr (inr (inr (inl (_, p, h, e'))))))
            (λ tokens e'.
              after_final_count-Outcome rounds last tokens candidates p again h _ e' few
                (λ left. reduced left tokens _))

  final_loop-Outcome :
      (fuel rounds : ℕ) (last : ℤ) (candidates : List CatalogBatchCandidate)
      (p : CatalogAiProjection) (next : ℕ) (h : List (Call Context Contract Usage))
      → max_reduction_rounds < fuel + rounds
      → rounds ≤ 3
      → (fuel ≡ 0 → ⊥)
      → Outcome c input rounds p (final_loop c input fuel rounds last candidates p next h)
  unfolding final_loop
  final_loop-Outcome zero rounds last candidates p next h enough few some_fuel =
      absurd (some_fuel refl)
  final_loop-Outcome (suc fuel) rounds last candidates p next h enough few some_fuel =
      final_round-Outcome rounds last candidates p
        (λ tokens. reduce_candidate_round c input p next >>= λ r.
          final_loop c input fuel (rounds + 1) tokens (normalize_batch_candidates r.0) r.1 r.2)
        h few
        (λ left tokens k.
          bind_case (reduce_candidate_round c input p next)
            (λ r.
              final_loop c input fuel (rounds + 1) tokens (normalize_batch_candidates r.0) r.1 r.2)
            k (Outcome c input rounds p)
            (λ x j e.
              BatchFailure-FinalFailure c input rounds p x
                (subst (Reduced c input p) e (reduce_candidate_round-Reduced c input p next k)))
            (λ r j e.
              FinalResult-round c input rounds p r.1 _ (λ n s there. (next, k, j, r, e, there))
                (final_loop-Outcome fuel (rounds + 1) tokens (normalize_batch_candidates r.0) r.1
                  r.2 j (ground arith) (ground arith) (λ z. ground arith))))

  -- The projection that the final evaluation starts with: what is left of the one that it is given once the
  -- items that no candidate selects are dropped.
  abbrev pub selected : List CatalogBatchCandidate → CatalogAiProjection → CatalogAiProjection
  selected candidates projection =
      (append_candidate_projection no_projection (as_batch projection)
        (normalize_batch_candidates candidates) []).0

  pub run_final_evaluation_lem :
      (candidates : List CatalogBatchCandidate) (projection : CatalogAiProjection) (start : ℕ)
      (h : List (Call Context Contract Usage))
      → FinalResult c input 0
          (selected candidates projection)
          (run_final_evaluation c input candidates projection start h).0
        × ((p : CatalogAiProjection) (n : ℕ)
            → RoundsTo c input n (selected candidates projection) p
            → Within c input p projection)
  unfolding run_final_evaluation
  run_final_evaluation_lem candidates projection start h =
      let normal = normalize_batch_candidates candidates in
      (
        final_loop-Outcome (suc max_reduction_rounds) 0 (pos 0) normal
            (selected candidates projection) _ h (ground arith) (ground arith) (λ z. cc),
        λ p n there x i.
            elim (append_candidate_projection-In no_projection (as_batch projection) normal [] x
              (RoundsTo-Within c input n (selected candidates projection) p there x i)) [
                | inl none_there ↦ absurd none_there
                | inr inside ↦ inside
              ],
      )
