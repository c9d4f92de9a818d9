-- ===== src/Catalog/Pages/Loop.antt =====
-- The loop over the pages: what it has gathered when it ends.
use mathlib.Core.Path.{subst}
use mujeeb24_backend_go.Common.{
  ℕ, zero, suc, String, ◌==◌, ◌≡◌, refl, inl, inr, Bool, true, false, ◌||◌, List, [], ◌∷◌, ◌++◌,
  Result, ok, err, length, In, if◌then◌else◌,
}
use mujeeb24_backend_go.Common.Text.{trim_space}
use mujeeb24_backend_go.Catalog.Projection.{
  CatalogAiItem, CatalogAiProjection, CatalogAiBatchPayload,
}
use mujeeb24_backend_go.Catalog.Session.{
  CatalogBatchCandidate, AiCatalogBatchRecord, CatalogError, CatalogPage, CatalogEvaluationInput,
  Call, Session, Controller, ◌>>=◌, pure, fail, port, estimator_required, item_exceeds_budget,
  coverage, invalid_evidence, cursor_did_not_advance, out_of_fuel, bind_case, perform_case,
  list_projection_page,
}
use mujeeb24_backend_go.Catalog.Split.{split_into_batches_mode}
use mujeeb24_backend_go.Catalog.Candidates.{normalize_batch_candidates}
use mujeeb24_backend_go.Catalog.Candidates.Select.{append_candidate_projection-In}
use mujeeb24_backend_go.Catalog.Batches.{run_batch, coverage_complete}
use mujeeb24_backend_go.Catalog.Batches.Life.{
  Life, run_batch-Life, coverage_complete-cons, coverage_complete-append,
}
use mujeeb24_backend_go.Catalog.Final.{as_batch}
use mujeeb24_backend_go.Catalog.Final.Reduce.{
  IsBatchError, run_batch-IsBatchError, split-IsBatchError,
}
use mujeeb24_backend_go.Catalog.Pages.{
  Progress, page_request, select_candidates, grow, page_batches, read_items, read_page, advance,
  read_pages,
}

-- The errors of the loop.
abbrev pub IsPageError : CatalogError → Type 0
IsPageError cursor_did_not_advance = Unit
IsPageError out_of_fuel = Unit
IsPageError e = IsBatchError e

pub IsBatchError-IsPageError : (e : CatalogError) → IsBatchError e → IsPageError e
IsBatchError-IsPageError (port e) b = tt
IsBatchError-IsPageError estimator_required b = tt
IsBatchError-IsPageError (item_exceeds_budget id budget t) b = tt
IsBatchError-IsPageError (coverage e) b = tt
IsBatchError-IsPageError (invalid_evidence n e) b = tt
IsBatchError-IsPageError _ b = absurd b

module _ {Context Contract Usage Decision : Type 0} (c : Controller Context Contract Usage Decision)
    (input : CatalogEvaluationInput Context Contract) where
  -- The item stood on a page that the catalog returned for this business and scope.
  abbrev pub OnPage : CatalogAiItem → Type 0
  OnPage x =
      (cursor : String) × (h : List (Call Context Contract Usage)) × (page : CatalogPage) × (c.page
          (page_request input.business_id input.catalog_scope cursor) h
        ≡ ok page)
      × In x page.projection.items

  pub record IsSound (s : Progress) : Type 0 where
    pub completed : coverage_complete s.batch_records ≡ true
    pub on_page : (x : CatalogAiItem) → In x s.candidate_projection.items → OnPage x

  abbrev PageRecords :
      Result CatalogError (List AiCatalogBatchRecord × List CatalogBatchCandidate)
        × List (Call Context Contract Usage)
      → Type 0
  PageRecords (ok r, k) = coverage_complete r.0 ≡ true
  PageRecords (err e, k) = IsBatchError e

  page_batches-PageRecords :
      (bs : List CatalogAiBatchPayload) (h : List (Call Context Contract Usage))
      → PageRecords (page_batches c input bs h)
  unfolding page_batches coverage_complete
  page_batches-PageRecords [] h = refl
  page_batches-PageRecords (b ∷ bs) h =
      bind_case (run_batch c input false b)
        (λ r. page_batches c input bs >>= λ rest. pure (r.0 ∷ rest.0, r.1 ++ rest.1)) h PageRecords
        (λ x k e. run_batch-IsBatchError c input false b h k x e)
        (λ r k e.
          bind_case (page_batches c input bs) (λ rest. pure (r.0 ∷ rest.0, r.1 ++ rest.1)) k
            PageRecords (λ x j e'. subst PageRecords e' (page_batches-PageRecords bs k))
            (λ rest j e'.
              coverage_complete-cons r.0 rest.0
                (subst (Life c input false b h) e (run_batch-Life c input false b h)).1
                (subst PageRecords e' (page_batches-PageRecords bs k))))

  abbrev pub Gathered : Result CatalogError Progress × List (Call Context Contract Usage) → Type 0
  Gathered (ok s, k) = IsSound s
  Gathered (err e, k) = IsPageError e

  select_candidates-IsSound :
      (page : CatalogAiProjection) (candidates : List CatalogBatchCandidate) (s : Progress)
      → ((x : CatalogAiItem) → In x page.items → OnPage x)
      → IsSound s
      → IsSound (select_candidates page candidates s)
  unfolding select_candidates
  select_candidates-IsSound page [] s there sound = sound
  select_candidates-IsSound page (y ∷ ys) s there sound = record {
    completed = sound.completed;
    on_page = λ x i.
        elim (append_candidate_projection-In s.candidate_projection (as_batch page)
          (normalize_batch_candidates (y ∷ ys)) s.candidate_items_seen x i) [
            | inl old ↦ sound.on_page x old
            | inr new ↦ there x new
          ];
  }

  -- A page that was read, or an error of one of its batches.
  abbrev pub Read : Result CatalogError Progress × List (Call Context Contract Usage) → Type 0
  Read (ok s, k) = IsSound s
  Read (err e, k) = IsBatchError e

  read_items-Read :
      (page : CatalogAiProjection) (s : Progress) (h : List (Call Context Contract Usage))
      → ((x : CatalogAiItem) → In x page.items → OnPage x)
      → IsSound s
      → Read (read_items c input page s h)
  unfolding read_items
  read_items-Read page s h there sound =
      let grown =
        λ (batches : List CatalogAiBatchPayload)
            (r : List AiCatalogBatchRecord × List CatalogBatchCandidate).
          grow s (length batches) r in
      bind_case (split_into_batches_mode c input page false s.next_batch_number)
        (λ batches.
          page_batches c input batches >>= λ r. pure (select_candidates page r.1 (grown batches r)))
        h Read (λ x k e. split-IsBatchError c input page false s.next_batch_number h k x e)
        (λ batches k e.
          bind_case (page_batches c input batches)
            (λ r. pure (select_candidates page r.1 (grown batches r))) k Read
            (λ x j e'. subst PageRecords e' (page_batches-PageRecords batches k))
            (λ r j e'. select_candidates-IsSound page r.1 (grown batches r) there (record {
              completed =
                  coverage_complete-append s.batch_records r.0 sound.completed
                    (subst PageRecords e' (page_batches-PageRecords batches k));
              on_page = sound.on_page;
            })))

  pub read_page-Read :
      (xs : List CatalogAiItem) (page : CatalogAiProjection) (s : Progress)
      (h : List (Call Context Contract Usage))
      → ((x : CatalogAiItem) → In x page.items → OnPage x)
      → IsSound s
      → Read (read_page c input xs page s h)
  unfolding read_page
  read_page-Read [] page s h there sound = sound
  read_page-Read (x ∷ xs) page s h there sound = read_items-Read page s h there sound

  advance-Gathered :
      (page : CatalogPage) (cursor : String) (rest : Session (Call Context Contract Usage) Progress)
      (s : Progress) (h : List (Call Context Contract Usage))
      → IsSound s
      → Gathered (rest h)
      → Gathered (advance c input page cursor rest s h)
  unfolding advance
  advance-Gathered page cursor rest s h sound more =
      by_tests page.has_more ((trim_space page.next_cursor == "") || (page.next_cursor == cursor))
    where
      by_tests :
          (more_pages stuck : Bool)
          → Gathered (
              (if more_pages then (if stuck then fail cursor_did_not_advance else rest) else pure s)
                h)
      by_tests true true = tt
      by_tests true false = more
      by_tests false stuck = sound

  pub read_pages-Gathered :
      (fuel : ℕ) (cursor : String) (s : Progress) (h : List (Call Context Contract Usage))
      → IsSound s
      → Gathered (read_pages c input fuel cursor s h)
  unfolding read_pages
  read_pages-Gathered zero cursor s h sound = tt
  read_pages-Gathered (suc fuel) cursor s h sound =
      let request = page_request input.business_id input.catalog_scope cursor in
      perform_case (list_projection_page request) (c.page request)
        (λ page. read_page c input page.projection.items page.projection s >>= λ s'.
          advance c input page cursor (read_pages c input fuel page.next_cursor s') s')
        h Gathered (λ x e. tt)
        (λ page e.
          let there : (x : CatalogAiItem) → In x page.projection.items → OnPage x =
            λ x i. (cursor, h, page, e, i) in
          bind_case (read_page c input page.projection.items page.projection s)
            (λ s'. advance c input page cursor (read_pages c input fuel page.next_cursor s') s')
            (list_projection_page request ∷ h) Gathered
            (λ x k e'. IsBatchError-IsPageError x (
              subst Read e' (read_page-Read page.projection.items page.projection s _ there sound)))
            (λ s' k e'.
              let sound' =
                subst Read e'
                  (read_page-Read page.projection.items page.projection s _ there sound) in
              advance-Gathered page cursor (read_pages c input fuel page.next_cursor s') s' k sound'
                (read_pages-Gathered fuel page.next_cursor s' k sound')))
