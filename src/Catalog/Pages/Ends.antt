-- ===== src/Catalog/Pages/Ends.antt =====
-- The evaluation ends when the catalog's cursors advance.
use mathlib.Core.Path.{subst}
use mujeeb24_backend_go.Common.{
  length, ℕ, zero, suc, ◌<◌, String, ◌==◌, ◌≡◌, refl, ◌≢◌, Bool, true, false, ◌||◌, List, ◌∷◌,
  Result, ok, err, arith, In, if◌then◌else◌,
}
use mujeeb24_backend_go.Common.Text.{trim_space}
use mujeeb24_backend_go.Catalog.Projection.{CatalogAiItem, CatalogAiProjection}
use mujeeb24_backend_go.Catalog.Session.{
  perform, coverage_incomplete, catalog_changed_during_final, catalog_changed_during_evaluation,
  CatalogError, CatalogPage, CatalogEvaluationInput, Call, Session, Controller, ◌>>=◌, ◌>>◌, pure,
  fail, cursor_did_not_advance, out_of_fuel, get_revision, bind_case, perform_case,
  list_projection_page,
}
use mujeeb24_backend_go.Catalog.Batches.{coverage_complete, count_completed}
use mujeeb24_backend_go.Catalog.Final.{run_final_evaluation}
use mujeeb24_backend_go.Catalog.Final.Outcome.{FinalFailure, FinalResult}
use mujeeb24_backend_go.Catalog.Final.Answer.{selected, run_final_evaluation_lem}
use mujeeb24_backend_go.Catalog.Final.Reduce.{IsBatchError}
use mujeeb24_backend_go.Catalog.Pages.{
  confirm, Progress, start_progress, page_request, read_page, advance, read_pages, read_revision,
  check_coverage, after_pages, after_revision, run_paged_catalog_evaluation,
}
use mujeeb24_backend_go.Catalog.Pages.Loop.{OnPage, IsSound, Read, read_page-Read}
use mujeeb24_backend_go.Catalog.Pages.Fresh.{start-IsSound}

pub IsBatchError-ends : (e : CatalogError) → IsBatchError e → e ≢ out_of_fuel
IsBatchError-ends e b = λ p. subst IsBatchError p b

module _ {Context Contract Usage Decision : Type 0} (c : Controller Context Contract Usage Decision)
    (input : CatalogEvaluationInput Context Contract) (rank : String → ℕ) where
  -- The cursor of a next page comes before the one it was read with, for some measure of cursors.
  abbrev pub CursorsAdvance : Type 0
  CursorsAdvance =
      (cursor : String) (h : List (Call Context Contract Usage)) (page : CatalogPage)
      → c.page (page_request input.business_id input.catalog_scope cursor) h ≡ ok page
      → page.has_more ≡ true
      → rank page.next_cursor < rank cursor

  abbrev pub Ends :
      {A : Type 0} → Result CatalogError A × List (Call Context Contract Usage) → Type 0
  Ends (ok s, k) = Unit
  Ends (err e, k) = e ≢ out_of_fuel

  advance-Ends :
      (page : CatalogPage) (cursor : String) (rest : Session (Call Context Contract Usage) Progress)
      (s : Progress) (h : List (Call Context Contract Usage))
      → (page.has_more ≡ true → Ends (rest h))
      → Ends (advance c input page cursor rest s h)
  unfolding advance
  advance-Ends page cursor rest s h more =
      by_tests page.has_more ((trim_space page.next_cursor == "") || (page.next_cursor == cursor))
        more
    where
      by_tests :
          (more_pages stuck : Bool)
          → (more_pages ≡ true → Ends (rest h))
          → Ends (
              (if more_pages then (if stuck then fail cursor_did_not_advance else rest) else pure s)
                h)
      by_tests true true m = λ e. cc
      by_tests true false m = m refl
      by_tests false stuck m = tt

  read_pages-Ends :
      CursorsAdvance
      → (fuel : ℕ) (cursor : String) (s : Progress) (h : List (Call Context Contract Usage))
      → rank cursor < fuel
      → IsSound c input s
      → Ends (read_pages c input fuel cursor s h)
  unfolding read_pages
  read_pages-Ends advancing zero cursor s h enough sound = absurd (omega arith)
  read_pages-Ends advancing (suc fuel) cursor s h enough sound =
      let request = page_request input.business_id input.catalog_scope cursor in
      perform_case (list_projection_page request) (c.page request)
        (λ page. read_page c input page.projection.items page.projection s >>= λ s'.
          advance c input page cursor (read_pages c input fuel page.next_cursor s') s')
        h Ends (λ x e. λ p. cc)
        (λ page e.
          let there : (x : CatalogAiItem) → In x page.projection.items → OnPage c input x =
            λ x i. (cursor, h, page, e, i) in
          bind_case (read_page c input page.projection.items page.projection s)
            (λ s'. advance c input page cursor (read_pages c input fuel page.next_cursor s') s')
            (list_projection_page request ∷ h) Ends
            (λ x k e'. IsBatchError-ends x (
              subst (Read c input) e'
                (read_page-Read c input page.projection.items page.projection s _ there sound)))
            (λ s' k e'.
              advance-Ends page cursor (read_pages c input fuel page.next_cursor s') s' k (λ more.
                read_pages-Ends advancing fuel page.next_cursor s' k
                  (omega (arith, advancing cursor h page e more))
                  (subst (Read c input) e' (
                    read_page-Read c input page.projection.items page.projection s _ there
                      sound)))))

  Ends-if :
      {A : Type 0} (b : Bool) (m n : Session (Call Context Contract Usage) A)
      (h : List (Call Context Contract Usage))
      → Ends (m h)
      → Ends (n h)
      → Ends ((if b then m else n) h)
  Ends-if true m n h p q = p
  Ends-if false m n h p q = q

  Ends-perform :
      {A B : Type 0} (call : Call Context Contract Usage)
      (answer : List (Call Context Contract Usage) → Result String A)
      (f : A → Session (Call Context Contract Usage) B) (h : List (Call Context Contract Usage))
      → ((a : A) (k : List (Call Context Contract Usage)) → Ends (f a k))
      → Ends ((perform call answer >>= f) h)
  Ends-perform call answer f h rest =
      perform_case call answer f h Ends (λ x e. λ p. cc) (λ a e. rest a (call ∷ h))

  FinalFailure-ends :
      (source : CatalogAiProjection) (e : CatalogError)
      → FinalFailure c input 0 source e
      → e ≢ out_of_fuel
  FinalFailure-ends source e b = λ p. subst (FinalFailure c input 0 source) p b

  confirm-Ends :
      (r : String) (result : Decision × CatalogAiProjection)
      (h : List (Call Context Contract Usage))
      → Ends (confirm c input r result h)
  unfolding confirm read_revision
  confirm-Ends r result h =
      Ends-perform (get_revision input.business_id) (c.revision input.business_id)
        (λ s. if s == r then pure result else fail catalog_changed_during_final) h
        (λ s k. Ends-if (s == r) (pure result) (fail catalog_changed_during_final) k tt (λ p. cc))

  after_pages-Ends :
      (r : String) (s : Progress) (h : List (Call Context Contract Usage))
      → Ends (after_pages c input r s h)
  unfolding after_pages read_revision
  after_pages-Ends r s h =
      let final_run =
        run_final_evaluation c input s.candidate_set s.candidate_projection s.next_batch_number in
      Ends-perform (get_revision input.business_id) (c.revision input.business_id)
        (λ t.
          if t == r
          then (final_run >>= confirm c input r)
          else fail catalog_changed_during_evaluation)
        h
        (λ t k.
          Ends-if (t == r) (final_run >>= confirm c input r)
            (fail catalog_changed_during_evaluation) k
            (bind_case final_run (confirm c input r) k Ends
              (λ x j e.
                FinalFailure-ends (selected c input s.candidate_set s.candidate_projection) x (
                  subst
                    (λ o.
                      FinalResult c input 0
                        (selected c input s.candidate_set s.candidate_projection) o.0)
                    e
                    (run_final_evaluation_lem c input s.candidate_set s.candidate_projection
                      s.next_batch_number k).0))
              (λ result j e. confirm-Ends r result j))
            (λ p. cc))

  check_coverage-Ends :
      (s : Progress) (h : List (Call Context Contract Usage)) → Ends (check_coverage c input s h)
  unfolding check_coverage
  check_coverage-Ends s h =
      Ends-if (coverage_complete s.batch_records) (pure tt)
        (fail (coverage_incomplete (count_completed s.batch_records) (length s.batch_records))) h tt
        (λ p. cc)

  -- When the cursors of the catalog's pages advance, the evaluation ends: it reads no more pages
  -- than the measure of the first cursor and one, so it never runs out of that much fuel.
  pub run_paged_catalog_evaluation-Ends :
      CursorsAdvance
      → (fuel : ℕ) (h : List (Call Context Contract Usage)) → rank "" < fuel
      → Ends (run_paged_catalog_evaluation c input fuel h)
  unfolding run_paged_catalog_evaluation read_revision after_revision check_coverage
  run_paged_catalog_evaluation-Ends advancing fuel h enough =
      Ends-perform (get_revision input.business_id) (c.revision input.business_id)
        (after_revision c input fuel) h
        (λ r k.
          bind_case (read_pages c input fuel "" start_progress)
            (λ s. check_coverage c input s >> after_pages c input r s) k Ends
            (λ x j e.
              subst Ends e
                (read_pages-Ends advancing fuel "" start_progress k enough (start-IsSound c input)))
            (λ s j e.
              bind_case (check_coverage c input s) (λ u. after_pages c input r s) j Ends
                (λ x i e'. subst Ends e' (check_coverage-Ends s j))
                (λ u i e'. after_pages-Ends r s i)))
