-- ===== src/Catalog/Split/Batches.antt =====
-- `splitIntoBatches` and `splitIntoBatchesMode` as their callers see them.
use mujeeb24_backend_go.Common.{
  ℕ, suc, ◌≡◌, refl, ◌⊎◌, inl, inr, Bool, true, false, List, [], ◌∷◌, Result, ok, err, arith,
  length, if◌then◌else◌,
}
use mujeeb24_backend_go.Catalog.Projection.{
  CatalogAiItem, CatalogAiProjection, CatalogAiBatchPayload,
}
use mujeeb24_backend_go.Catalog.Coverage.{CoverageError, validate_catalog_batch_coverage}
use mujeeb24_backend_go.Catalog.Session.{
  CatalogError, CatalogEvaluationInput, Call, Controller, ◌>>=◌, estimator_required, coverage, port,
  item_exceeds_budget, after, fail,
}
use mujeeb24_backend_go.Catalog.Split.{
  split, split_items, checked, first_number, split_into_batches_mode,
}
use mujeeb24_backend_go.Catalog.Split.Exact.{SplitOf, split-Adds}
use mujeeb24_backend_go.Catalog.Split.Outcome.{Failure, split-Failure}

module _ {Context Contract Usage Decision : Type 0} (c : Controller Context Contract Usage Decision)
    (input : CatalogEvaluationInput Context Contract) (projection : CatalogAiProjection)
    (reduction : Bool) where
  -- What is known of the routine's result for these items, whichever it is.
  abbrev pub SplitResult :
      List CatalogAiItem → ℕ → Result CatalogError (List CatalogAiBatchPayload) → Type 0
  SplitResult items start (ok bs) =
      SplitOf c input projection reduction items (first_number c input projection reduction start)
        bs
      × ((items ≡ []) ⊎ (validate_catalog_batch_coverage projection bs ≡ ok tt))
  SplitResult items start (err estimator_required) = c.estimates_batches ≡ false
  SplitResult items start (err (coverage e)) =
      (bs : List CatalogAiBatchPayload) × SplitOf c input projection reduction items
        (first_number c input projection reduction start) bs
      × (validate_catalog_batch_coverage projection bs ≡ err e)
  SplitResult items start (err e) = Failure c input projection reduction items e

  checked-SplitResult :
      (items : List CatalogAiItem) (start : ℕ) (bs : List CatalogAiBatchPayload)
      (h : List (Call Context Contract Usage))
      → SplitOf c input projection reduction items
          (first_number c input projection reduction start)
          bs
      → SplitResult items start (checked c input projection reduction bs h).0
  unfolding checked
  checked-SplitResult items start bs h s =
      by_check (validate_catalog_batch_coverage projection bs) refl
    where
      by_check :
          (v : Result CoverageError (Unit {0}))
          → validate_catalog_batch_coverage projection bs ≡ v
          → SplitResult items start (checked c input projection reduction bs h).0
      by_check (ok u) e = rw (e, checked) (s, inr e)
      by_check (err x) e = rw (e, checked) (bs, s, e)

  Failure-SplitResult :
      (items : List CatalogAiItem) (start : ℕ) (e : CatalogError)
      → Failure c input projection reduction items e
      → SplitResult items start (err e)
  Failure-SplitResult items start (port e) f = f
  Failure-SplitResult items start (item_exceeds_budget id budget t) f = f
  Failure-SplitResult items start _ f = absurd f

  split_items-SplitResult :
      (items : List CatalogAiItem) (start : ℕ) (h : List (Call Context Contract Usage))
      → SplitResult items start (split_items c input projection reduction start items h).0
  unfolding split_items
  split_items-SplitResult [] start h = (record { kept = refl; numbered = tt; built = tt }, inl refl)
  split_items-SplitResult (x ∷ xs) start h = by_wiring c.estimates_batches refl
    where
      by_split :
          (o : Result CatalogError (List CatalogAiBatchPayload × ℕ)
            × List (Call Context Contract Usage))
          → split c input projection reduction
              (suc (length (x ∷ xs)))
              (x ∷ xs)
              []
              (first_number c input projection reduction start)
              h
            ≡ o
          → SplitResult (x ∷ xs) start (after o (λ r. checked c input projection reduction r.0)).0
      by_split (ok r, k) e =
          let (new, p, q, s) =
            split-Adds c input projection reduction (suc (length (x ∷ xs))) (x ∷ xs) []
              (first_number c input projection reduction start) h k r e in
          rw p (checked-SplitResult (x ∷ xs) start new k s)
      by_split (err z, k) e = Failure-SplitResult (x ∷ xs) start z (
          split-Failure c input projection reduction (suc (length (x ∷ xs))) (x ∷ xs) []
            (first_number c input projection reduction start) h k z (omega arith) e)

      by_wiring :
          (b : Bool)
          → c.estimates_batches ≡ b
          → SplitResult
              (x ∷ xs)
              start
              ((if b
                  then split c input projection reduction
                      (suc (length (x ∷ xs)))
                      (x ∷ xs)
                      []
                      (first_number c input projection reduction start)
                    >>= (λ r. checked c input projection reduction r.0)
                  else fail estimator_required)
                h).0
      by_wiring true e =
          by_split
            (split c input projection reduction (suc (length (x ∷ xs))) (x ∷ xs) []
              (first_number c input projection reduction start) h)
            refl
      by_wiring false e = e

  -- The routine ends on every input. When it returns batches, they hold the items of the projection
  -- in their order, each once; none is empty; each is what `buildBatch` makes of its items; they are
  -- numbered from the start on; the estimator answered at most the budget for each; and the coverage
  -- check passed. When it fails, no estimator is wired, the coverage check refused such batches, the
  -- estimator failed, or an item exceeds the budget alone.
  pub split_into_batches_mode_lem :
      (start : ℕ) (h : List (Call Context Contract Usage))
      → SplitResult projection.items start
          (split_into_batches_mode c input projection reduction start h).0
  unfolding split_into_batches_mode
  split_into_batches_mode_lem start h = split_items-SplitResult projection.items start h
