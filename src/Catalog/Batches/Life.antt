-- ===== src/Catalog/Batches/Life.antt =====
-- The statuses that a batch goes through, as they are written to the store.
use mujeeb24_backend_go.Common.{
  ℕ, String, ◌==◌, ==_iff, ◌≡◌, refl, ap, ◌∙◌, if◌then◌else◌, ◌⊎◌, inl, inr, Bool, true, false,
  List, [], ◌∷◌, ◌++◌, Result, ok, err, length,
}
use mujeeb24_backend_go.Catalog.Projection.{CatalogAiBatchPayload}
use mujeeb24_backend_go.Catalog.Session.{
  CatalogBatchCandidate, CatalogBatchResult, AiCatalogBatchRecord, CatalogEvaluationInput,
  CatalogError, CandidateError, Phase, Call, Controller, ◌>>=◌, pure, port, invalid_evidence,
  create_catalog_batch, update_catalog_batch, evaluate_batch, record_batch_usage, perform_case,
  after, of_port,
}
use mujeeb24_backend_go.Catalog.Candidates.{validate_batch_candidates}
use mujeeb24_backend_go.Catalog.Batches.{
  coverage_complete, new_record, running_patch, completed_patch, create_batch_record, update_batch,
  mark_batch_running, mark_batch_completed, mark_batch_failed, evaluation_input, evaluate,
  record_usage, phase_of, after_check, finish, after_evaluation, after_record, run_batch,
}

-- The statuses that the calls wrote with the batches that they wrote them of, newest first.
abbrev pub writes :
    {Context Contract Usage : Type 0} → List (Call Context Contract Usage) → List (String × String)
writes [] = []
writes (create_catalog_batch r ∷ h) = (r.id, r.status) ∷ writes h
writes (update_catalog_batch id p ∷ h) = (id, p.status) ∷ writes h
writes (_ ∷ h) = writes h

module _ {Context Contract Usage Decision : Type 0} (c : Controller Context Contract Usage Decision)
    (input : CatalogEvaluationInput Context Contract) (reduction : Bool)
    (batch : CatalogAiBatchPayload) where
  -- The store answered the new record with this identifier.
  abbrev pub Stored : List (Call Context Contract Usage) → String → Type 0
  Stored h id =
      (rec : AiCatalogBatchRecord) × (c.created (new_record c input batch h) h ≡ ok rec)
      × (rec.id ≡ id)

  -- The new batch was written as pending.
  abbrev pub pending : List (Call Context Contract Usage) → List (String × String)
  pending h = (c.new_id h, "pending") ∷ writes h

  -- The stored batch was then written as running.
  abbrev pub running : String → List (Call Context Contract Usage) → List (String × String)
  running id h = (id, "running") ∷ pending h

  -- The evaluator gave these candidates for the batch.
  abbrev pub Evaluated : List CatalogBatchCandidate → Type 0
  Evaluated candidates =
      (j : List (Call Context Contract Usage)) × (result : CatalogBatchResult Usage) × (c.evaluated
          (evaluation_input c input reduction batch) j
        ≡ ok result)
      × (result.candidates ≡ candidates)

  -- How a batch that started at the history `h` may end.
  abbrev pub Life :
      List (Call Context Contract Usage)
      → Result CatalogError (AiCatalogBatchRecord × List CatalogBatchCandidate)
        × List (Call Context Contract Usage)
      → Type 0
  Life h (ok r, k) =
      (writes k ≡ (r.0.id, "completed") ∷ running r.0.id h)
      × (r.0.status ≡ "completed")
      × Evaluated r.1
      × (validate_batch_candidates batch r.1 ≡ ok tt)
      × Stored h r.0.id
  Life h (err (port x), k) =
      ((c.created (new_record c input batch h) h ≡ err x) × (writes k ≡ pending h))
      ⊎ ((id : String) × Stored h id
          × (((j : List (Call Context Contract Usage)) × (c.updated id (running_patch (c.now j)) j
                  ≡ err x)
                × (writes k ≡ running id h))
              ⊎ ((j : List (Call Context Contract Usage)) × (c.evaluated
                      (evaluation_input c input reduction batch) j
                    ≡ err x)
                  × (writes k ≡ (id, "failed") ∷ running id h))
              ⊎ ((j : List (Call Context Contract Usage)) × (n : ℕ) × (c.updated id
                      (completed_patch n (c.now j)) j
                    ≡ err x)
                  × (writes k ≡ (id, "completed") ∷ running id h))))
  Life h (err (invalid_evidence n e), k) =
      (n ≡ batch.batch_number)
      × ((candidates : List CatalogBatchCandidate) × Evaluated candidates
          × (validate_batch_candidates batch candidates ≡ err e))
      × ((id : String) × Stored h id × (writes k ≡ (id, "failed") ∷ running id h))
  Life h (err _, k) = ⊥

  -- The batch of the record is stored and written as running.
  Running :
      AiCatalogBatchRecord
      → List (Call Context Contract Usage)
      → List (Call Context Contract Usage)
      → Type 0
  Running rec h j =
      (c.created (new_record c input batch h) h ≡ ok rec) × (writes j ≡ running rec.id h)

  after_check-Life :
      (h j : List (Call Context Contract Usage)) (rec : AiCatalogBatchRecord)
      (candidates : List CatalogBatchCandidate) (v : Result CandidateError (Unit {0}))
      → validate_batch_candidates batch candidates ≡ v
      → Evaluated candidates
      → Running rec h j
      → Life h ((after_check c input batch rec.id candidates v >>= finish c input rec) j)
  unfolding after_check mark_batch_completed mark_batch_failed update_batch Running
  after_check-Life h j rec candidates (ok u) valid given s =
      by_update (c.updated rec.id (completed_patch (length candidates) (c.now j)) j) refl
    where
      by_update :
          (r : Result String (Unit {0}))
          → c.updated rec.id (completed_patch (length candidates) (c.now j)) j ≡ r
          → Life h (
              after
                (after
                  (
                    of_port r,
                    update_catalog_batch rec.id (completed_patch (length candidates) (c.now j)) ∷ j,
                  )
                  (λ u. pure candidates))
                (finish c input rec))
      by_update (ok u') e =
          (ap (λ l. (rec.id, "completed") ∷ l) s.1, refl, given, valid, (rec, s.0, refl))
      by_update (err x) e = inr (
        rec.id,
        (rec, s.0, refl),
        inr (inr (j, length candidates, e, ap (λ l. (rec.id, "completed") ∷ l) s.1)),
      )
  after_check-Life h j rec candidates (err e) invalid given s = (
    refl,
    (candidates, given, invalid),
    (rec.id, (rec, s.0, refl), ap (λ l. (rec.id, "failed") ∷ l) s.1),
  )

  if-writes :
      (b : Bool) (usage : Usage) (p : Phase) (j : List (Call Context Contract Usage))
      → writes (if b then record_batch_usage input.business_id input.ai_run_id usage p ∷ j else j)
        ≡ writes j
  if-writes true usage p j = refl
  if-writes false usage p j = refl

  after_evaluation-Life :
      (h j : List (Call Context Contract Usage)) (rec : AiCatalogBatchRecord)
      (result : CatalogBatchResult Usage)
      → Evaluated result.candidates
      → Running rec h j
      → Life h (after_evaluation c input reduction batch rec result j)
  unfolding after_evaluation record_usage Running
  after_evaluation-Life h j rec result given s =
      after_check-Life h _ rec result.candidates (validate_batch_candidates batch result.candidates)
        refl given
        (
          s.0,
          if-writes c.records_usage result.usage (phase_of c input reduction batch.batch_number) j
              ∙ s.1,
        )

  evaluate-Life :
      (h j : List (Call Context Contract Usage)) (rec : AiCatalogBatchRecord)
      → Running rec h j
      → Life h (
          (evaluate c input reduction batch rec.id >>= after_evaluation c input reduction batch rec)
            j)
  unfolding evaluate mark_batch_failed update_batch Running
  evaluate-Life h j rec s =
      by_answer (c.evaluated (evaluation_input c input reduction batch) j) refl
    where
      by_answer :
          (r : Result String (CatalogBatchResult Usage))
          → c.evaluated (evaluation_input c input reduction batch) j ≡ r
          → Life h (
              after
                (elim r [
                  | ok result ↦
                      (ok result, evaluate_batch (evaluation_input c input reduction batch) ∷ j)
                  | err e ↦ (
                    err (port e),
                    (mark_batch_failed c input rec.id e
                        (evaluate_batch (evaluation_input c input reduction batch) ∷ j)).1,
                  )
                ])
                (after_evaluation c input reduction batch rec))
      by_answer (ok result) e =
          after_evaluation-Life h (evaluate_batch (evaluation_input c input reduction batch) ∷ j)
            rec result (j, result, e, refl) s
      by_answer (err x) e =
          inr (rec.id, (rec, s.0, refl), inr (inl (j, e, ap (λ l. (rec.id, "failed") ∷ l) s.1)))

  after_record-Life :
      (h j : List (Call Context Contract Usage)) (rec : AiCatalogBatchRecord)
      → c.created (new_record c input batch h) h ≡ ok rec
      → writes j ≡ pending h
      → Life h (after_record c input reduction batch rec j)
  unfolding after_record mark_batch_running update_batch Running
  after_record-Life h j rec st s =
      let patch = running_patch (c.now j) in
      perform_case (update_catalog_batch rec.id patch) (c.updated rec.id patch)
        (λ u.
          evaluate c input reduction batch rec.id >>= after_evaluation c input reduction batch rec)
        j (Life h)
        (λ x e. inr (rec.id, (rec, st, refl), inl (j, e, ap (λ l. (rec.id, "running") ∷ l) s)))
        (λ u e.
          evaluate-Life h (update_catalog_batch rec.id patch ∷ j) rec
            (st, ap (λ l. (rec.id, "running") ∷ l) s))

  -- A new batch is written as pending, then the batch that the store made of it is written as running, and
  -- then as completed or failed, and no other batch is written. It is completed when candidates are
  -- returned, with its record: the evaluator gave them, and they passed the check. It is failed when the
  -- evaluator's candidates did not pass the check, or the evaluator failed. When the store failed, that is
  -- at the last of these writes, to which the batch was led until then. No other error comes of it.
  pub run_batch-Life :
      (h : List (Call Context Contract Usage)) → Life h (run_batch c input reduction batch h)
  unfolding run_batch create_batch_record
  run_batch-Life h =
      let rec = new_record c input batch h in
      perform_case (create_catalog_batch rec) (c.created rec) (after_record c input reduction batch)
        h (Life h) (λ x e. inl (e, refl))
        (λ stored e. after_record-Life h (create_catalog_batch rec ∷ h) stored e refl)

pub coverage_complete-cons :
    (r : AiCatalogBatchRecord) (rs : List AiCatalogBatchRecord)
    → r.status ≡ "completed"
    → coverage_complete rs ≡ true
    → coverage_complete (r ∷ rs) ≡ true
unfolding coverage_complete
coverage_complete-cons r rs e rest = rw ((==_iff r.status "completed").1 e) rest

pub coverage_complete-append :
    (rs qs : List AiCatalogBatchRecord)
    → coverage_complete rs ≡ true
    → coverage_complete qs ≡ true
    → coverage_complete (rs ++ qs) ≡ true
unfolding coverage_complete
coverage_complete-append [] qs e e' = e'
coverage_complete-append (r ∷ rs) qs e e' =
    by_status (r.status == "completed") (λ f. coverage_complete-append rs qs f e') e
  where
    by_status :
        (b : Bool)
        → (coverage_complete rs ≡ true → coverage_complete (rs ++ qs) ≡ true)
        → (if b then coverage_complete rs else false) ≡ true
        → (if b then coverage_complete (rs ++ qs) else false) ≡ true
    by_status true rest f = rest f
    by_status false rest f = f
