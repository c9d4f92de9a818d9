-- ===== src/Catalog/Split/Outcome.antt =====
-- How `splitIntoBatchesMode` fails: on no branch but those of the source, and never by its fuel.
use mathlib.Core.Path.{subst}
use mujeeb24_backend_go.Common.{
  ℕ, zero, suc, ◌/◌, ◌<◌, String, ◌≡◌, refl, ap, ◌⊎◌, inl, inr, Bool, false, List, [], ◌∷◌, ◌++◌,
  Result, ok, err, arith, length, take, drop, take-append-drop, length-take, length-drop, In,
  In-append_left, In-append_right, eqb, Bool-cases,
}
use mujeeb24_backend_go.Common.Int.{ℤ, leb_ℤ}
use mujeeb24_backend_go.Catalog.Projection.{
  CatalogAiItem, CatalogAiProjection, CatalogAiBatchPayload,
}
use mujeeb24_backend_go.Catalog.Session.{
  CatalogError, CatalogEvaluationInput, Call, Controller, Session, ◌>>=◌, port, item_exceeds_budget,
  bind_err, of_port,
}
use mujeeb24_backend_go.Catalog.Split.{
  effective_budget, build_batch, batch_input, count_batch, after_count, split,
}
use mujeeb24_backend_go.Catalog.Split.Exact.{count_batch_ok}

not_err :
    {Called A : Type 0} {x : CatalogError} {a : A} {j k : List Called}
    → ¬ (◌≡◌ {A = Result CatalogError A × List Called} (ok a, j) (err x, k))
not_err e = cc

err_injective :
    {Called A : Type 0} {x y : CatalogError} {j k : List Called}
    → ◌≡◌ {A = Result CatalogError A × List Called} (err x, j) (err y, k)
    → x ≡ y
err_injective e = cc

port_injective :
    {A : Type 0} {x : String} {y : CatalogError}
    → ◌≡◌ {A = Result CatalogError A} (err (port x)) (err y)
    → port x ≡ y
port_injective e = cc

several_items : (n : ℕ) → eqb (suc (suc n)) 1 ≡ false
several_items n = ground arith

module _ {Context Contract Usage Decision : Type 0} (c : Controller Context Contract Usage Decision)
    (input : CatalogEvaluationInput Context Contract) (projection : CatalogAiProjection)
    (reduction : Bool) where
  -- An item that does not fit even alone: the estimator once answered more than the budget for it.
  abbrev pub Oversized : CatalogAiItem → ℤ → Type 0
  Oversized x t =
      (n : ℕ) × (h : List (Call Context Contract Usage)) × (c.batch_tokens
          (batch_input c input projection reduction
            (build_batch c input projection reduction (x ∷ []) n))
          h
        ≡ ok t)
      × (leb_ℤ t (effective_budget c.token_budget) ≡ false)

  -- The estimator failed with this error for some request.
  abbrev pub EstimatorFailed : String → Type 0
  EstimatorFailed e =
      (b : CatalogAiBatchPayload) × (h : List (Call Context Contract Usage)) × (c.batch_tokens
          (batch_input c input projection reduction b) h
        ≡ err e)

  -- What an error of `split` says. No other error is possible.
  abbrev pub Failure : List CatalogAiItem → CatalogError → Type 0
  Failure items (port e) = EstimatorFailed e
  Failure items (item_exceeds_budget id budget t) =
      (budget ≡ effective_budget c.token_budget)
      × (x : CatalogAiItem) × In x items
      × (x.id ≡ id)
      × Oversized x t
  Failure items _ = ⊥

  Failure-left :
      (xs ys : List CatalogAiItem) (e : CatalogError) → Failure xs e → Failure (xs ++ ys) e
  Failure-left xs ys (port e) f = f
  Failure-left xs ys (item_exceeds_budget id budget t) (q, x, i, p, o) =
      (q, x, In-append_left x xs ys i, p, o)
  Failure-left xs ys _ f = absurd f

  Failure-right :
      (xs ys : List CatalogAiItem) (e : CatalogError) → Failure ys e → Failure (xs ++ ys) e
  Failure-right xs ys (port e) f = f
  Failure-right xs ys (item_exceeds_budget id budget t) (q, x, i, p, o) =
      (q, x, In-append_right x xs ys i, p, o)
  Failure-right xs ys _ f = absurd f

  count_batch_err :
      (items : List CatalogAiItem) (b : CatalogAiBatchPayload)
      (h k : List (Call Context Contract Usage)) (e : CatalogError)
      → count_batch c input projection reduction b h ≡ (err e, k)
      → Failure items e
  unfolding count_batch
  count_batch_err items b h k e q =
      by_answer (c.batch_tokens (batch_input c input projection reduction b) h) refl
        (ap (λ r. r.0) q)
    where
      by_answer :
          (a : Result String ℤ)
          → c.batch_tokens (batch_input c input projection reduction b) h ≡ a
          → of_port a ≡ err e
          → Failure items e
      by_answer (ok t) p q = cc
      by_answer (err x) p q = subst (Failure items) (port_injective q) (b, h, p)

  after_count_err :
      (x : CatalogAiItem) (xs : List CatalogAiItem) (n : ℕ) (batches : List CatalogAiBatchPayload)
      (halves : Session (Call Context Contract Usage) (List CatalogAiBatchPayload × ℕ)) (tokens : ℤ)
      (h j k : List (Call Context Contract Usage)) (e : CatalogError)
      → let b = build_batch c input projection reduction (x ∷ xs) n in
        c.batch_tokens (batch_input c input projection reduction b) h ≡ ok tokens
        → after_count c input projection reduction x (length (x ∷ xs)) batches b n halves tokens j
          ≡ (err e, k)
        → Failure (x ∷ xs) e ⊎ ((1 < length (x ∷ xs)) × (halves j ≡ (err e, k)))
  unfolding after_count
  after_count_err x [] n batches halves tokens h j k e counted q =
      elim (Bool-cases (leb_ℤ tokens (effective_budget c.token_budget))) [
        | inl fits ↦ absurd (not_err (rw (after_count, fits) at q))
        | inr too_big ↦ inl (
            subst (Failure (x ∷ [])) (err_injective (rw (after_count, too_big) at q))
              (refl, x, inl refl, refl, (n, h, counted, too_big)))
      ]
  after_count_err x (y ∷ ys) n batches halves tokens h j k e counted q =
      elim (Bool-cases (leb_ℤ tokens (effective_budget c.token_budget))) [
        | inl fits ↦ absurd (not_err (rw (after_count, fits) at q))
        | inr too_big ↦ inr (omega arith, rw (after_count, too_big, several_items (length ys)) at q)
      ]

  -- With one more round than there are items `split` ends, and an error of it says that the
  -- estimator failed or that some item exceeds the budget alone.
  pub split-Failure :
      (fuel : ℕ) (items : List CatalogAiItem) (acc : List CatalogAiBatchPayload) (n : ℕ)
      (h k : List (Call Context Contract Usage)) (e : CatalogError)
      → length items < fuel
      → split c input projection reduction fuel items acc n h ≡ (err e, k)
      → Failure items e
  unfolding split
  split-Failure zero items acc n h k e lt q = absurd (omega arith)
  split-Failure (suc fuel) [] acc n h k e lt q = cc
  split-Failure (suc fuel) (x ∷ xs) acc n h k e lt q =
      let run = split c input projection reduction fuel in
      let b = build_batch c input projection reduction (x ∷ xs) n in
      let mid = length (x ∷ xs) / 2 in
      let first = run (take mid (x ∷ xs)) acc n in
      let second = λ (s : List CatalogAiBatchPayload × ℕ). run (drop mid (x ∷ xs)) s.0 s.1 in
      elim (bind_err (count_batch c input projection reduction b)
        (after_count c input projection reduction x (length (x ∷ xs)) acc b n (first >>= second)) h
        q) [
          | inl uncounted ↦ count_batch_err (x ∷ xs) b h k e uncounted
          | inr (tokens, j, p, r) ↦
              elim (after_count_err x xs n acc (first >>= second) tokens h j k e
                (count_batch_ok c input projection reduction b h j tokens p) r) [
                  | inl f ↦ f
                  | inr (several, both) ↦ elim (bind_err first second j both) [
                    | inl f ↦ rw (← take-append-drop mid (x ∷ xs)) (
                        Failure-left (take mid (x ∷ xs)) (drop mid (x ∷ xs)) e (
                          split-Failure fuel (take mid (x ∷ xs)) acc n j k e
                            (omega (arith, length-take {0} mid (x ∷ xs))) f))
                    | inr (s, i, p₁, p₂) ↦ rw (← take-append-drop mid (x ∷ xs)) (
                        Failure-right (take mid (x ∷ xs)) (drop mid (x ∷ xs)) e (
                          split-Failure fuel (drop mid (x ∷ xs)) s.0 s.1 i k e
                            (omega (arith, length-drop {0} mid (x ∷ xs))) p₂))
                  ]
                ]
        ]
