-- ===== src/Catalog/Final/Outcome.antt =====
-- The outcomes of the final evaluation, and those of its single steps.
use mujeeb24_backend_go.Common.{
  ℕ, zero, suc, ◌+◌, ◌≤◌, ◌<◌, subst, ◌≡◌, refl, ◌⊎◌, inr, Bool, true, false, ◌&&◌, List, Result,
  ok, err, arith, In, leb, if◌then◌else◌,
}
use mujeeb24_backend_go.Common.Int.{ℤ, pos, leb_ℤ, ltb_ℤ, ◌≤ℤ◌, ◌<ℤ◌}
use mujeeb24_backend_go.Catalog.Projection.{CatalogAiItem, CatalogAiProjection}
use mujeeb24_backend_go.Catalog.Session.{
  CatalogBatchCandidate, CatalogError, CatalogEvaluationInput, Call, Session, Controller, pure,
  fail, base_context_exceeds_budget, no_token_progress, reduction_rounds_exceeded,
  capability_not_terminal, cancelled, perform_case, final_evaluate, final_evaluation_phase, port,
  estimator_required, item_exceeds_budget, coverage, invalid_evidence, ◌>>◌,
}
use mujeeb24_backend_go.Catalog.Split.{effective_budget}
use mujeeb24_backend_go.Catalog.Batches.{record_usage}
use mujeeb24_backend_go.Catalog.Final.{
  max_reduction_rounds, no_items, reduce_candidate_round, final_input, accept_answer, final_answer,
  oversize,
}
use mujeeb24_backend_go.Catalog.Final.Reduce.{BatchFailure, Reduced, reduce_candidate_round-Reduced}

module _ {Context Contract Usage Decision : Type 0} (c : Controller Context Contract Usage Decision)
    (input : CatalogEvaluationInput Context Contract) where
  -- The final model, asked about this projection, gave this decision.
  abbrev pub Answered : Decision → CatalogAiProjection → List CatalogBatchCandidate → Type 0
  Answered d p candidates =
      (h : List (Call Context Contract Usage)) × (u : Usage) × (c.final_answer
          (final_input c input candidates) p h
        ≡ ok (d, u))

  -- The estimator, asked about the same request, answered at most the budget, if there is one.
  abbrev pub FitsFinal : CatalogAiProjection → List CatalogBatchCandidate → Type 0
  FitsFinal p candidates =
      (c.estimates_final ≡ false)
      ⊎ ((h : List (Call Context Contract Usage)) × (t : ℤ) × (c.final_tokens
              (final_input c input candidates) p h
            ≡ ok t)
          × (t ≤ℤ effective_budget c.token_budget))

  abbrev pub Within : CatalogAiProjection → CatalogAiProjection → Type 0
  Within p q = (x : CatalogAiItem) → In x p.items → In x q.items

  -- The projection `q` is what `n` rounds of reduction make of `p`.
  abbrev pub RoundsTo : ℕ → CatalogAiProjection → CatalogAiProjection → Type 0
  RoundsTo zero p q = p ≡ q
  RoundsTo (suc n) p q =
      (start : ℕ) × (h : List (Call Context Contract Usage)) × (k : List
        (Call Context Contract Usage))
      × (r : List CatalogBatchCandidate × CatalogAiProjection × ℕ) × (reduce_candidate_round c input
            p start h
          ≡ (ok r, k))
      × RoundsTo n r.1 q

  -- How the final evaluation fails, when `rounds` rounds have led to the projection.
  abbrev pub FinalFailure : ℕ → CatalogAiProjection → CatalogError → Type 0
  FinalFailure rounds source (base_context_exceeds_budget b t) =
      (b ≡ effective_budget c.token_budget) × (leb_ℤ t b ≡ false)
  FinalFailure rounds source (no_token_progress last t) =
      (pos 0 <ℤ last) × (last ≤ℤ t) × (leb_ℤ t (effective_budget c.token_budget) ≡ false)
  FinalFailure rounds source (reduction_rounds_exceeded t) =
      (leb_ℤ t (effective_budget c.token_budget) ≡ false)
      × ((n : ℕ) × (p : CatalogAiProjection) × (n + rounds ≡ 3) × RoundsTo n source p)
  FinalFailure rounds source capability_not_terminal = (d : Decision) × (c.is_terminal d ≡ false)
  FinalFailure rounds source cancelled =
      (h : List (Call Context Contract Usage)) × (c.context_cancelled h ≡ true)
  FinalFailure rounds source e = BatchFailure c input e

  -- The outcome of the final evaluation of a projection.
  abbrev pub FinalResult :
      ℕ → CatalogAiProjection → Result CatalogError (Decision × CatalogAiProjection) → Type 0
  FinalResult rounds source (ok (d, p)) =
      (c.is_terminal d ≡ true)
      × ((n : ℕ) × (n + rounds ≤ 3) × RoundsTo n source p)
      × ((candidates : List CatalogBatchCandidate) × Answered d p candidates
          × FitsFinal p candidates)
  FinalResult rounds source (err e) = FinalFailure rounds source e

  abbrev pub Outcome :
      ℕ
      → CatalogAiProjection
      → Result CatalogError (Decision × CatalogAiProjection) × List (Call Context Contract Usage)
      → Type 0
  Outcome rounds source o = FinalResult rounds source o.0

  -- Rounds of reduction keep items of the projection.
  pub RoundsTo-Within : (n : ℕ) (p q : CatalogAiProjection) → RoundsTo n p q → Within q p
  RoundsTo-Within zero p q e = subst (λ (s : CatalogAiProjection). Within s p) e (λ x i. i)
  RoundsTo-Within (suc n) p q (start, h, k, r, e, rest) = λ x i.
      subst (Reduced c input p) e (reduce_candidate_round-Reduced c input p start h) x
        (RoundsTo-Within n r.1 q rest x i)

  pub BatchFailure-FinalFailure :
      (rounds : ℕ) (source : CatalogAiProjection) (e : CatalogError)
      → BatchFailure c input e
      → FinalFailure rounds source e
  BatchFailure-FinalFailure rounds source (port x) b = b
  BatchFailure-FinalFailure rounds source estimator_required b = b
  BatchFailure-FinalFailure rounds source (item_exceeds_budget id budget t) b = b
  BatchFailure-FinalFailure rounds source (coverage e) b = b
  BatchFailure-FinalFailure rounds source (invalid_evidence n e) b = b
  BatchFailure-FinalFailure rounds source _ b = absurd b

  -- One round more in front.
  pub FinalResult-round :
      (rounds : ℕ) (p q : CatalogAiProjection)
      (o : Result CatalogError (Decision × CatalogAiProjection))
      → ((n : ℕ) (s : CatalogAiProjection) → RoundsTo n q s → RoundsTo (suc n) p s)
      → FinalResult (rounds + 1) q o
      → FinalResult rounds p o
  FinalResult-round rounds p q (ok (d, s)) one (terminal, (n, few, there), answered) =
      (terminal, (suc n, ground arith, one n s there), answered)
  FinalResult-round rounds p q (err (reduction_rounds_exceeded t)) one
        (large, (n, s, three, there)) =
      (large, (suc n, s, ground arith, one n s there))
  FinalResult-round rounds p q (err (base_context_exceeds_budget b t)) one f = f
  FinalResult-round rounds p q (err (no_token_progress last t)) one f = f
  FinalResult-round rounds p q (err capability_not_terminal) one f = f
  FinalResult-round rounds p q (err cancelled) one f = f
  FinalResult-round rounds p q (err (port e)) one f = f
  FinalResult-round rounds p q (err estimator_required) one f = f
  FinalResult-round rounds p q (err (item_exceeds_budget id budget t)) one f = f
  FinalResult-round rounds p q (err (coverage e)) one f = f
  FinalResult-round rounds p q (err (invalid_evidence n e)) one f = f
  FinalResult-round rounds p q (err _) one f = absurd f

  accept_answer-Outcome :
      (rounds : ℕ) (candidates : List CatalogBatchCandidate) (p : CatalogAiProjection)
      (d : Decision) (u : Usage) (h k : List (Call Context Contract Usage))
      → rounds ≤ 3
      → FitsFinal p candidates
      → c.final_answer (final_input c input candidates) p h ≡ ok (d, u)
      → Outcome rounds p (accept_answer c input p (d, u) k)
  unfolding accept_answer record_usage
  accept_answer-Outcome rounds candidates p d u h k few fits e = by_terminal (c.is_terminal d) refl
    where
      by_terminal :
          (b : Bool)
          → c.is_terminal d ≡ b
          → Outcome rounds p (
              (if b
                  then record_usage c input u final_evaluation_phase >> pure (d, p)
                  else fail capability_not_terminal)
                k)
      by_terminal true t = (t, (0, omega (arith, few), refl), (candidates, (h, u, e), fits))
      by_terminal false t = (d, t)

  pub final_answer-Outcome :
      (rounds : ℕ) (candidates : List CatalogBatchCandidate) (p : CatalogAiProjection)
      (h : List (Call Context Contract Usage))
      → rounds ≤ 3
      → FitsFinal p candidates
      → Outcome rounds p (final_answer c input candidates p h)
  unfolding final_answer
  final_answer-Outcome rounds candidates p h few fits =
      perform_case (final_evaluate (final_input c input candidates) p)
        (c.final_answer (final_input c input candidates) p) (accept_answer c input p) h
        (Outcome rounds p) (λ x e. inr (inr (inr (inr (inr (_, p, h, e))))))
        (λ a e. accept_answer-Outcome rounds candidates p a.0 a.1 h _ few fits e)

  no_progress :
      (last tokens : ℤ)
      → (ltb_ℤ (pos 0) last && leb_ℤ last tokens) ≡ true
      → (pos 0 <ℤ last) × (last ≤ℤ tokens)
  no_progress last tokens e = ground arith

  pub oversize-Outcome :
      (rounds : ℕ) (last tokens : ℤ) (p : CatalogAiProjection)
      (reduce : Session (Call Context Contract Usage) (Decision × CatalogAiProjection))
      (h : List (Call Context Contract Usage))
      → leb_ℤ tokens (effective_budget c.token_budget) ≡ false
      → rounds ≤ 3
      → (rounds < max_reduction_rounds → Outcome rounds p (reduce h))
      → Outcome rounds p (oversize c input rounds last p tokens reduce h)
  unfolding oversize
  oversize-Outcome rounds last tokens p reduce h large few reduced =
      by_tests (no_items p.items) (ltb_ℤ (pos 0) last && leb_ℤ last tokens)
        (leb max_reduction_rounds rounds) refl refl
    where
      by_tests :
          (empty stuck many : Bool)
          → (ltb_ℤ (pos 0) last && leb_ℤ last tokens) ≡ stuck
          → leb max_reduction_rounds rounds ≡ many
          → Outcome rounds p (
              (if empty
                  then fail (base_context_exceeds_budget (effective_budget c.token_budget) tokens)
                  else if stuck
                  then fail (no_token_progress last tokens)
                  else if many
                  then fail (reduction_rounds_exceeded tokens)
                  else reduce)
                h)
      by_tests true stuck many e e' = (refl, large)
      by_tests false true many e e' =
          let (positive, more) = no_progress last tokens e in (positive, more, large)
      by_tests false false true e e' = (large, (0, p, ground arith, refl))
      by_tests false false false e e' = reduced (ground arith)
