-- ===== src/Catalog/Pages/Fresh.antt =====
-- The result of `RunCatalogEvaluation`: it belongs to one revision of the catalog.
use mathlib.Core.Path.{subst}
use mujeeb24_backend_go.Common.{
  ℕ, String, ◌==◌, ==_iff, ◌≡◌, refl, ◌≢◌, ◌⊎◌, inl, inr, Bool, true, false, List, ◌∷◌, Result, ok,
  err, In, if◌then◌else◌,
}
use mujeeb24_backend_go.Catalog.Projection.{CatalogAiItem, CatalogAiProjection}
use mujeeb24_backend_go.Catalog.Session.{
  CatalogBatchCandidate, CatalogError, CatalogEvaluationInput, Call, Controller, ◌>>=◌, ◌>>◌, pure,
  fail, catalog_changed_during_evaluation, catalog_changed_during_final, get_revision, bind_case,
  perform_case,
}
use mujeeb24_backend_go.Catalog.Batches.{coverage_complete}
use mujeeb24_backend_go.Catalog.Final.{run_final_evaluation}
use mujeeb24_backend_go.Catalog.Final.Outcome.{Answered, FitsFinal, FinalFailure, FinalResult}
use mujeeb24_backend_go.Catalog.Final.Answer.{selected, run_final_evaluation_lem}
use mujeeb24_backend_go.Catalog.Pages.{
  Progress, start_progress, read_pages, read_revision, check_coverage, confirm, after_pages,
  after_revision, run_paged_catalog_evaluation,
}
use mujeeb24_backend_go.Catalog.Pages.Loop.{
  IsPageError, OnPage, IsSound, Gathered, read_pages-Gathered,
}

module _ {Context Contract Usage Decision : Type 0} (c : Controller Context Contract Usage Decision)
    (input : CatalogEvaluationInput Context Contract) where
  -- The catalog answered with two revisions that differ, first at the history `h`.
  abbrev pub Changed : List (Call Context Contract Usage) → Type 0
  Changed h =
      (r s : String) × (k : List (Call Context Contract Usage)) × (c.revision input.business_id h
        ≡ ok r)
      × (c.revision input.business_id k ≡ ok s)
      × (s ≢ r)

  -- How a run that is wired and names its business fails.
  abbrev pub RunFailure : List (Call Context Contract Usage) → CatalogError → Type 0
  RunFailure h catalog_changed_during_evaluation = Changed h
  RunFailure h catalog_changed_during_final = Changed h
  RunFailure h e = IsPageError e ⊎ ((p : CatalogAiProjection) × FinalFailure c input 0 p e)

  -- The decision is terminal and was given on items of pages of the catalog; the revision was read
  -- by the first call and by the last, with the same answer.
  abbrev pub RunResult :
      List (Call Context Contract Usage)
      → Result CatalogError (Decision × CatalogAiProjection) × List (Call Context Contract Usage)
      → Type 0
  RunResult h (ok (d, p), k) =
      ((r : String) × (j : List (Call Context Contract Usage)) × (c.revision input.business_id h
          ≡ ok r)
        × (k ≡ get_revision input.business_id ∷ j)
        × (c.revision input.business_id j ≡ ok r))
      × (c.is_terminal d ≡ true)
      × ((x : CatalogAiItem) → In x p.items → OnPage c input x)
      × ((candidates : List CatalogBatchCandidate) × Answered c input d p candidates
          × FitsFinal c input p candidates)
  RunResult h (err e, k) = RunFailure h e

  IsPageError-RunFailure :
      (h : List (Call Context Contract Usage)) (e : CatalogError) → IsPageError e → RunFailure h e
  IsPageError-RunFailure h catalog_changed_during_evaluation b = absurd b
  IsPageError-RunFailure h catalog_changed_during_final b = absurd b
  IsPageError-RunFailure h e b = inl b

  FinalFailure-RunFailure :
      (h : List (Call Context Contract Usage)) (p : CatalogAiProjection) (e : CatalogError)
      → FinalFailure c input 0 p e
      → RunFailure h e
  FinalFailure-RunFailure h p catalog_changed_during_evaluation b = absurd b
  FinalFailure-RunFailure h p catalog_changed_during_final b = absurd b
  FinalFailure-RunFailure h p e b = inr (p, b)

  differ : (r s : String) → (s == r) ≡ false → s ≢ r
  differ r s e = λ p. cc (e, (==_iff s r).1 p)

  confirm-RunResult :
      (r : String) (d : Decision) (source p : CatalogAiProjection)
      (h k : List (Call Context Contract Usage))
      → c.revision input.business_id h ≡ ok r
      → ((x : CatalogAiItem) → In x p.items → OnPage c input x)
      → FinalResult c input 0 source (ok (d, p))
      → RunResult h (confirm c input r (d, p) k)
  unfolding confirm read_revision
  confirm-RunResult r d source p h k e there (terminal, rounds, answered) =
      perform_case (get_revision input.business_id) (c.revision input.business_id)
        (λ s. if s == r then pure (d, p) else fail catalog_changed_during_final) k (RunResult h)
        (λ x e'. inl tt) (λ s e'. by_test s e' (s == r) refl)
    where
      by_test :
          (s : String)
          → c.revision input.business_id k ≡ ok s
          → (b : Bool) → (s == r) ≡ b
          → RunResult h (
              (if b then pure (d, p) else fail catalog_changed_during_final)
                (get_revision input.business_id ∷ k))
      by_test s e' true same_revision =
          let s_is_r = (==_iff s r).0 same_revision in
          ((r, k, e, refl, rw s_is_r at e'), terminal, there, answered)
      by_test s e' false t = (r, s, k, e, e', differ r s t)

  after_pages-RunResult :
      (r : String) (s : Progress) (h k : List (Call Context Contract Usage))
      → c.revision input.business_id h ≡ ok r
      → IsSound c input s
      → RunResult h (after_pages c input r s k)
  unfolding after_pages read_revision
  after_pages-RunResult r s h k e sound =
      perform_case (get_revision input.business_id) (c.revision input.business_id)
        (λ revision_end.
          if revision_end == r
          then (run_final_evaluation c input s.candidate_set s.candidate_projection
                s.next_batch_number
              >>= confirm c input r)
          else fail catalog_changed_during_evaluation)
        k (RunResult h) (λ x e'. inl tt)
        (λ revision_end e'. by_test revision_end e' (revision_end == r) refl)
    where
      final_result :
          (j i : List (Call Context Contract Usage))
          (o : Result CatalogError (Decision × CatalogAiProjection))
          → run_final_evaluation c input s.candidate_set s.candidate_projection s.next_batch_number
              j
            ≡ (o, i)
          → FinalResult c input 0 (selected c input s.candidate_set s.candidate_projection) o
      final_result j i o q =
          subst
            (λ t.
              FinalResult c input 0 (selected c input s.candidate_set s.candidate_projection) t.0)
            q
            (run_final_evaluation_lem c input s.candidate_set s.candidate_projection
              s.next_batch_number j).0

      by_test :
          (revision_end : String)
          → c.revision input.business_id k ≡ ok revision_end
          → (b : Bool) → (revision_end == r) ≡ b
          → RunResult h (
              (if b
                  then (run_final_evaluation c input s.candidate_set s.candidate_projection
                        s.next_batch_number
                      >>= confirm c input r)
                  else fail catalog_changed_during_evaluation)
                (get_revision input.business_id ∷ k))
      by_test revision_end e' false t = (r, revision_end, k, e, e', differ r revision_end t)
      by_test revision_end e' true t =
          bind_case
            (run_final_evaluation c input s.candidate_set s.candidate_projection
              s.next_batch_number)
            (confirm c input r) (get_revision input.business_id ∷ k) (RunResult h)
            (λ x i q. FinalFailure-RunFailure h _ x (final_result _ i (err x) q))
            (λ result i q.
              let f = final_result _ i (ok result) q in
              confirm-RunResult r result.0 (selected c input s.candidate_set s.candidate_projection)
                result.1 h i e
                (λ x there. sound.on_page x (
                  (run_final_evaluation_lem c input s.candidate_set s.candidate_projection
                      s.next_batch_number k).1
                    result.1 f.1.0 f.1.2 x there))
                f)

  check_coverage-RunResult :
      (r : String) (s : Progress) (h k : List (Call Context Contract Usage))
      → c.revision input.business_id h ≡ ok r
      → IsSound c input s
      → RunResult h ((check_coverage c input s >> after_pages c input r s) k)
  unfolding check_coverage
  check_coverage-RunResult r s h k e sound =
      rw sound.completed (after_pages-RunResult r s h k e sound)

  pub start-IsSound : IsSound c input start_progress
  unfolding coverage_complete
  start-IsSound = record { completed = refl; on_page = λ x i. absurd i }

  -- A decision that the evaluation returns is terminal; the final model gave it on items that stood
  -- on pages of the catalog; and the catalog answered with the same revision to the first call of
  -- the run and to the last. The run fails with a changed catalog only if it saw two revisions; it
  -- never fails for incomplete coverage, since every batch is completed when its loop goes on.
  pub run_paged_catalog_evaluation_lem :
      (fuel : ℕ) (h : List (Call Context Contract Usage))
      → RunResult h (run_paged_catalog_evaluation c input fuel h)
  unfolding run_paged_catalog_evaluation read_revision after_revision
  run_paged_catalog_evaluation_lem fuel h =
      perform_case (get_revision input.business_id) (c.revision input.business_id)
        (after_revision c input fuel) h (RunResult h) (λ x e. inl tt)
        (λ r e.
          bind_case (read_pages c input fuel "" start_progress)
            (λ s. check_coverage c input s >> after_pages c input r s)
            (get_revision input.business_id ∷ h) (RunResult h)
            (λ x k q. IsPageError-RunFailure h x (
              subst (Gathered c input) q
                (read_pages-Gathered c input fuel "" start_progress _ start-IsSound)))
            (λ s k q. check_coverage-RunResult r s h k e (
              subst (Gathered c input) q
                (read_pages-Gathered c input fuel "" start_progress _ start-IsSound))))
