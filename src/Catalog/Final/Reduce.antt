-- ===== src/Catalog/Final/Reduce.antt =====
-- What a round of `reduceCandidateRound` returns: items of the projection that it was given.
use mathlib.Core.Path.{subst}
use mujeeb24_backend_go.Common.{
  ℕ, String, ◌≡◌, sym, false, ◌⊎◌, inl, inr, Bool, true, List, [], ◌∷◌, ◌++◌, ◌+◌, Result, ok, err,
  length, In, In-append_left, In-append_right,
}
use mujeeb24_backend_go.Catalog.Projection.{
  CatalogAiItem, CatalogAiProjection, CatalogAiBatchPayload,
}
use mujeeb24_backend_go.Catalog.Coverage.Exact.{carried}
use mujeeb24_backend_go.Catalog.Session.{
  CatalogBatchCandidate, AiCatalogBatchRecord, AiCatalogBatchPatch, BatchEvaluationInput,
  FinalEvaluationInput, CatalogError, CatalogEvaluationInput, Call, Controller, ◌>>=◌, pure, port,
  estimator_required, item_exceeds_budget, coverage, invalid_evidence, bind_case,
}
use mujeeb24_backend_go.Catalog.Split.{effective_budget, split_into_batches_mode}
use mujeeb24_backend_go.Catalog.Split.Batches.{SplitResult, split_into_batches_mode_lem}
use mujeeb24_backend_go.Common.Int.{ℤ, leb_ℤ}
use mujeeb24_backend_go.Catalog.Coverage.{validate_catalog_batch_coverage}
use mujeeb24_backend_go.Catalog.Candidates.{
  append_candidate_projection, normalize_batch_candidates, validate_batch_candidates,
}
use mujeeb24_backend_go.Catalog.Candidates.Select.{append_candidate_projection-In}
use mujeeb24_backend_go.Catalog.Batches.{run_batch}
use mujeeb24_backend_go.Catalog.Batches.Life.{Life, run_batch-Life}
use mujeeb24_backend_go.Catalog.Final.{no_projection, reduce_batches, reduce_candidate_round}

-- The errors of splitting and of batches.
abbrev pub IsBatchError : CatalogError → Type 0
IsBatchError (port e) = Unit
IsBatchError estimator_required = Unit
IsBatchError (item_exceeds_budget id budget t) = Unit
IsBatchError (coverage e) = Unit
IsBatchError (invalid_evidence n e) = Unit
IsBatchError _ = ⊥

module _ {Context Contract Usage Decision : Type 0} (c : Controller Context Contract Usage Decision)
    (input : CatalogEvaluationInput Context Contract) where
  -- A port that the batches or the final evaluation call failed with this error.
  abbrev pub PortFailed : String → Type 0
  PortFailed x =
      ((r : AiCatalogBatchRecord) × (h : List (Call Context Contract Usage)) × (c.created r h
          ≡ err x))
      ⊎ ((id : String) × (p : AiCatalogBatchPatch) × (h : List (Call Context Contract Usage))
          × (c.updated id p h ≡ err x))
      ⊎ ((b : BatchEvaluationInput Context Contract) × (h : List (Call Context Contract Usage))
          × (c.evaluated b h ≡ err x))
      ⊎ ((b : BatchEvaluationInput Context Contract) × (h : List (Call Context Contract Usage))
          × (c.batch_tokens b h ≡ err x))
      ⊎ ((i : FinalEvaluationInput Context Contract) × (p : CatalogAiProjection) × (h : List
            (Call Context Contract Usage))
          × (c.final_tokens i p h ≡ err x))
      ⊎ ((i : FinalEvaluationInput Context Contract) × (p : CatalogAiProjection) × (h : List
            (Call Context Contract Usage))
          × (c.final_answer i p h ≡ err x))

  -- What an error of splitting or of a batch says.
  abbrev pub BatchFailure : CatalogError → Type 0
  BatchFailure (port x) = PortFailed x
  BatchFailure estimator_required = c.estimates_batches ≡ false
  BatchFailure (item_exceeds_budget id budget t) =
      (budget ≡ effective_budget c.token_budget)
      × ((b : BatchEvaluationInput Context Contract) × (h : List (Call Context Contract Usage))
          × (c.batch_tokens b h ≡ ok t))
      × (leb_ℤ t budget ≡ false)
  BatchFailure (coverage e) =
      (p : CatalogAiProjection) × (bs : List CatalogAiBatchPayload)
      × (validate_catalog_batch_coverage p bs ≡ err e)
  BatchFailure (invalid_evidence n e) =
      (b : CatalogAiBatchPayload) × (candidates : List CatalogBatchCandidate) × (n ≡ b.batch_number)
      × (validate_batch_candidates b candidates ≡ err e)
  BatchFailure _ = ⊥

  BatchFailure-IsBatchError : (e : CatalogError) → BatchFailure e → IsBatchError e
  BatchFailure-IsBatchError (port x) f = tt
  BatchFailure-IsBatchError estimator_required f = tt
  BatchFailure-IsBatchError (item_exceeds_budget id budget t) f = tt
  BatchFailure-IsBatchError (coverage e) f = tt
  BatchFailure-IsBatchError (invalid_evidence n e) f = tt
  BatchFailure-IsBatchError _ f = absurd f

  Life-BatchFailure :
      (reduction : Bool) (batch : CatalogAiBatchPayload) (h k : List (Call Context Contract Usage))
      (x : CatalogError)
      → Life c input reduction batch h (err x, k)
      → BatchFailure x
  Life-BatchFailure reduction batch h k (port x) (inl (e, w)) = inl (_, h, e)
  Life-BatchFailure reduction batch h k (port x) (inr (id, st, inl (j, e, w))) =
      inr (inl (id, _, j, e))
  Life-BatchFailure reduction batch h k (port x) (inr (id, st, inr (inl (j, e, w)))) =
      inr (inr (inl (_, j, e)))
  Life-BatchFailure reduction batch h k (port x) (inr (id, st, inr (inr (j, n, e, w)))) =
      inr (inl (id, _, j, e))
  Life-BatchFailure reduction batch h k (invalid_evidence n e) l = (batch, l.1.0, l.0, l.1.2)
  Life-BatchFailure reduction batch h k _ l = absurd l

  run_batch-BatchFailure :
      (reduction : Bool) (batch : CatalogAiBatchPayload) (h k : List (Call Context Contract Usage))
      (x : CatalogError)
      → run_batch c input reduction batch h ≡ (err x, k)
      → BatchFailure x
  run_batch-BatchFailure reduction batch h k x e =
      Life-BatchFailure reduction batch h k x
        (subst (Life c input reduction batch h) e (run_batch-Life c input reduction batch h))

  pub run_batch-IsBatchError :
      (reduction : Bool) (batch : CatalogAiBatchPayload) (h k : List (Call Context Contract Usage))
      (x : CatalogError)
      → run_batch c input reduction batch h ≡ (err x, k)
      → IsBatchError x
  run_batch-IsBatchError reduction batch h k x e =
      BatchFailure-IsBatchError x (run_batch-BatchFailure reduction batch h k x e)

  SplitResult-BatchFailure :
      (projection : CatalogAiProjection) (reduction : Bool) (items : List CatalogAiItem) (start : ℕ)
      (x : CatalogError)
      → SplitResult c input projection reduction items start (err x)
      → BatchFailure x
  SplitResult-BatchFailure projection reduction items start (port x) (b, h, e) =
      inr (inr (inr (inl (_, h, e))))
  SplitResult-BatchFailure projection reduction items start estimator_required f = f
  SplitResult-BatchFailure projection reduction items start (item_exceeds_budget id budget t)
        (same, x, i, named, (n, h, e, large)) =
      (same, (_, h, e), subst (λ (b : ℤ). leb_ℤ t b ≡ false) (sym same) large)
  SplitResult-BatchFailure projection reduction items start (coverage e) (bs, split, refused) =
      (projection, bs, refused)
  SplitResult-BatchFailure projection reduction items start _ f = absurd f

  pub split-SplitResult :
      (projection : CatalogAiProjection) (reduction : Bool) (start : ℕ)
      (h k : List (Call Context Contract Usage))
      (r : Result CatalogError (List CatalogAiBatchPayload))
      → split_into_batches_mode c input projection reduction start h ≡ (r, k)
      → SplitResult c input projection reduction projection.items start r
  split-SplitResult projection reduction start h k r e =
      subst (λ o. SplitResult c input projection reduction projection.items start o.0) e
        (split_into_batches_mode_lem c input projection reduction start h)

  split-BatchFailure :
      (projection : CatalogAiProjection) (reduction : Bool) (start : ℕ)
      (h k : List (Call Context Contract Usage)) (x : CatalogError)
      → split_into_batches_mode c input projection reduction start h ≡ (err x, k)
      → BatchFailure x
  split-BatchFailure projection reduction start h k x e =
      SplitResult-BatchFailure projection reduction projection.items start x
        (split-SplitResult projection reduction start h k (err x) e)

  pub split-IsBatchError :
      (projection : CatalogAiProjection) (reduction : Bool) (start : ℕ)
      (h k : List (Call Context Contract Usage)) (x : CatalogError)
      → split_into_batches_mode c input projection reduction start h ≡ (err x, k)
      → IsBatchError x
  split-IsBatchError projection reduction start h k x e =
      BatchFailure-IsBatchError x (split-BatchFailure projection reduction start h k x e)

  -- The items of the result were in the target or are carried by the batches.
  abbrev Kept :
      List CatalogAiBatchPayload
      → CatalogAiProjection
      → Result CatalogError (List CatalogBatchCandidate × CatalogAiProjection)
        × List (Call Context Contract Usage)
      → Type 0
  Kept bs target (ok r, k) =
      (x : CatalogAiItem) → In x r.1.items → In x target.items ⊎ In x (carried bs)
  Kept bs target (err e, k) = BatchFailure e

  Kept-weaken :
      (b : CatalogAiBatchPayload) (bs : List CatalogAiBatchPayload)
      (target next : CatalogAiProjection)
      (o : Result CatalogError (List CatalogBatchCandidate × CatalogAiProjection)
        × List (Call Context Contract Usage))
      → ((x : CatalogAiItem) → In x next.items → In x target.items ⊎ In x b.items)
      → Kept bs next o
      → Kept (b ∷ bs) target o
  Kept-weaken b bs target next (err e, k) grown q = q
  Kept-weaken b bs target next (ok r, k) grown q = λ x i. elim (q x i) [
    | inl j ↦ elim (grown x j) [
      | inl old ↦ inl old
      | inr new ↦ inr (In-append_left x b.items (carried bs) new)
    ]
    | inr j ↦ inr (In-append_right x b.items (carried bs) j)
  ]

  reduce_batches-Kept :
      (bs : List CatalogAiBatchPayload) (reduced : List CatalogBatchCandidate)
      (target : CatalogAiProjection) (seen : List String) (h : List (Call Context Contract Usage))
      → Kept bs target (reduce_batches c input bs reduced target seen h)
  unfolding reduce_batches
  reduce_batches-Kept [] reduced target seen h = λ x i. inl i
  reduce_batches-Kept (b ∷ bs) reduced target seen h =
      bind_case (run_batch c input true b)
        (λ r.
          let next = append_candidate_projection target b r.1 seen in
          reduce_batches c input bs (reduced ++ r.1) next.0 next.1)
        h (Kept (b ∷ bs) target) (λ x k e. run_batch-BatchFailure true b h k x e)
        (λ r k e.
          let next = append_candidate_projection target b r.1 seen in
          Kept-weaken b bs target next.0 _ (append_candidate_projection-In target b r.1 seen)
            (reduce_batches-Kept bs (reduced ++ r.1) next.0 next.1 k))

  abbrev pub Reduced :
      CatalogAiProjection
      → Result CatalogError (List CatalogBatchCandidate × CatalogAiProjection × ℕ)
        × List (Call Context Contract Usage)
      → Type 0
  Reduced projection (ok r, k) = (x : CatalogAiItem) → In x r.1.items → In x projection.items
  Reduced projection (err e, k) = BatchFailure e

  pub reduce_candidate_round-Reduced :
      (projection : CatalogAiProjection) (start : ℕ) (h : List (Call Context Contract Usage))
      → Reduced projection (reduce_candidate_round c input projection start h)
  unfolding reduce_candidate_round
  reduce_candidate_round-Reduced projection start h =
      bind_case (split_into_batches_mode c input projection true start)
        (λ batches. reduce_batches c input batches [] no_projection [] >>= λ r.
          pure (normalize_batch_candidates r.0, r.1, start + length batches))
        h (Reduced projection) (λ x k e. split-BatchFailure projection true start h k x e)
        (λ batches k e.
          let kept = (split-SplitResult projection true start h k (ok batches) e).0.kept in
          bind_case (reduce_batches c input batches [] no_projection [])
            (λ r. pure (normalize_batch_candidates r.0, r.1, start + length batches)) k
            (Reduced projection)
            (λ x j e'.
              subst (Kept batches no_projection) e'
                (reduce_batches-Kept batches [] no_projection [] k))
            (λ r j e' x i.
              elim (subst (Kept batches no_projection) e'
                (reduce_batches-Kept batches [] no_projection [] k) x i) [
                  | inl none_there ↦ absurd none_there
                  | inr there ↦ subst (In x) kept there
                ]))
