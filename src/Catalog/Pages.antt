-- ===== src/Catalog/Pages.antt =====
-- `RunCatalogEvaluation` and `runPagedCatalogEvaluation` of services/catalog_batch_controller.go:
-- the pages of the catalog, then the final evaluation, between reads of the catalog's revision.
pub mod Loop
pub mod Fresh
pub mod Ends
use mujeeb24_backend_go.Common.{
  ℕ, zero, suc, ◌+◌, String, ◌==◌, Bool, true, false, ◌||◌, List, [], ◌∷◌, ◌++◌, ok, err, length,
  if◌then◌else◌,
}
use mujeeb24_backend_go.Common.Text.{trim_space}
use mujeeb24_backend_go.Catalog.Projection.{
  CatalogAiItem, CatalogAiProjection, CatalogAiBatchPayload,
}
use mujeeb24_backend_go.Catalog.Session.{
  CatalogBatchCandidate, AiCatalogBatchRecord, CatalogAiProjectionRequest, CatalogPage,
  CatalogEvaluationInput, Call, Session, Controller, pure, fail, perform, ◌>>=◌, ◌>>◌, not_wired,
  missing_business_or_run, cursor_did_not_advance, coverage_incomplete,
  catalog_changed_during_evaluation, catalog_changed_during_final, out_of_fuel, get_revision,
  list_projection_page,
}
use mujeeb24_backend_go.Catalog.Split.{split_into_batches_mode, split_code}
use mujeeb24_backend_go.Catalog.Candidates.{
  normalize_batch_candidates, append_candidate_projection, candidates_code,
}
use mujeeb24_backend_go.Catalog.Batches.{
  run_batch, coverage_complete, count_completed, batches_code,
}
use mujeeb24_backend_go.Catalog.Final.{no_projection, as_batch, run_final_evaluation, final_code}

-- The variables of `runPagedCatalogEvaluation` that its loop changes, but the cursor.
pub record Progress : Type 0 where
  pub next_batch_number : ℕ
  pub batch_records : List AiCatalogBatchRecord
  pub candidate_set : List CatalogBatchCandidate
  pub candidate_projection : CatalogAiProjection
  pub candidate_items_seen : List String

abbrev pub start_progress : Progress
start_progress = record {
  next_batch_number = 1;
  batch_records = [];
  candidate_set = [];
  candidate_projection = no_projection;
  candidate_items_seen = [];
}

abbrev pub page_request : String → String → String → CatalogAiProjectionRequest
page_request business_id scope cursor = record {
  business_id = business_id;
  catalog_id = scope;
  limit = 200;
  cursor = cursor;
}

-- `if len(pageCandidates) > 0 { appendCandidateProjection(…) }`
pub select_candidates : CatalogAiProjection → List CatalogBatchCandidate → Progress → Progress
select_candidates page [] s = s
select_candidates page (x ∷ xs) s =
    let (projection, seen) =
      append_candidate_projection s.candidate_projection (as_batch page)
        (normalize_batch_candidates (x ∷ xs)) s.candidate_items_seen in
    record s { candidate_projection = projection; candidate_items_seen = seen }

-- The records, the candidates and the numbers that the batches of a page add.
abbrev pub grow : Progress → ℕ → List AiCatalogBatchRecord × List CatalogBatchCandidate → Progress
grow s batches r = record s {
  next_batch_number = s.next_batch_number + batches;
  batch_records = s.batch_records ++ r.0;
  candidate_set = s.candidate_set ++ r.1;
}

module _ {Context Contract Usage Decision : Type 0} (c : Controller Context Contract Usage Decision)
    (input : CatalogEvaluationInput Context Contract) where
  -- The loop over the batches of a page: the records and the candidates that it adds.
  pub page_batches :
      List CatalogAiBatchPayload
      → Session
          (Call Context Contract Usage)
          (List AiCatalogBatchRecord × List CatalogBatchCandidate)
  page_batches [] = pure ([], [])
  page_batches (b ∷ bs) = run_batch c input false b >>= λ r.
      page_batches bs >>= λ rest. pure (r.0 ∷ rest.0, r.1 ++ rest.1)

  -- The body of the loop over the pages, for a page that holds items.
  pub read_items : CatalogAiProjection → Progress → Session (Call Context Contract Usage) Progress
  read_items page s = split_into_batches_mode c input page false s.next_batch_number >>= λ batches.
      page_batches batches >>= λ r. pure (select_candidates page r.1 (grow s (length batches) r))

  pub read_page :
      List CatalogAiItem
      → CatalogAiProjection
      → Progress
      → Session (Call Context Contract Usage) Progress
  read_page [] page s = pure s
  read_page (x ∷ xs) page s = read_items page s

  -- The end of the loop's body; `rest` reads the next page.
  pub advance :
      CatalogPage
      → String
      → Session (Call Context Contract Usage) Progress
      → Progress
      → Session (Call Context Contract Usage) Progress
  advance page cursor rest s =
      if page.has_more
      then (if (trim_space page.next_cursor == "") || (page.next_cursor == cursor)
          then fail cursor_did_not_advance
          else rest)
      else pure s

  -- The loop over the pages, on fuel.
  pub read_pages : ℕ → String → Progress → Session (Call Context Contract Usage) Progress
  read_pages zero cursor s = fail out_of_fuel
  read_pages (suc fuel) cursor s =
      let request = page_request input.business_id input.catalog_scope cursor in
      perform (list_projection_page request) (c.page request) >>= λ page.
      read_page page.projection.items page.projection s >>= λ s'.
      advance page cursor (read_pages fuel page.next_cursor s') s'

  pub read_revision : Session (Call Context Contract Usage) String
  read_revision = perform (get_revision input.business_id) (c.revision input.business_id)

  -- From the end of the loop to the first comparison of revisions.
  pub check_coverage : Progress → Session (Call Context Contract Usage) (Unit {0})
  check_coverage s =
      if coverage_complete s.batch_records
      then pure tt
      else fail (coverage_incomplete (count_completed s.batch_records) (length s.batch_records))

  -- The read of the revision after the final evaluation.
  pub confirm :
      String
      → Decision × CatalogAiProjection
      → Session (Call Context Contract Usage) (Decision × CatalogAiProjection)
  confirm revision_start result = read_revision >>= λ revision_after.
      if revision_after == revision_start then pure result else fail catalog_changed_during_final

  pub after_pages :
      String → Progress → Session (Call Context Contract Usage) (Decision × CatalogAiProjection)
  after_pages revision_start s = read_revision >>= λ revision_end.
      if revision_end == revision_start
      then (run_final_evaluation c input s.candidate_set s.candidate_projection s.next_batch_number
          >>= confirm revision_start)
      else fail catalog_changed_during_evaluation

  pub after_revision :
      ℕ → String → Session (Call Context Contract Usage) (Decision × CatalogAiProjection)
  after_revision fuel revision_start =
      read_pages fuel "" start_progress >>= λ s. check_coverage s >> after_pages revision_start s

  pub run_paged_catalog_evaluation :
      ℕ → Session (Call Context Contract Usage) (Decision × CatalogAiProjection)
  run_paged_catalog_evaluation fuel = read_revision >>= after_revision fuel

  -- `Ready`: the dependencies are wired, and the evaluator estimates the tokens of a batch.
  unfoldable pub ready : Bool → Bool
  ready wired = if wired then c.estimates_batches else false

  -- `RunCatalogEvaluation`; its evidence is the projection returned.
  unfoldable pub run_catalog_evaluation :
      Bool → ℕ → Session (Call Context Contract Usage) (Decision × CatalogAiProjection)
  run_catalog_evaluation wired fuel =
      if ready wired
      then (if (trim_space input.business_id == "") || (trim_space input.ai_run_id == "")
          then fail missing_business_or_run
          else run_paged_catalog_evaluation fuel)
      else fail not_wired

-- What a run of the evaluation unfolds.
unfoldable pub evaluation_code : Unit {0}
unfolding trim_space split_code candidates_code batches_code final_code select_candidates
    page_batches read_items read_page advance read_pages read_revision check_coverage confirm
    after_pages after_revision run_paged_catalog_evaluation ready run_catalog_evaluation
evaluation_code = tt
