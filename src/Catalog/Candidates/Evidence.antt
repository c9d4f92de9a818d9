-- ===== src/Catalog/Candidates/Evidence.antt =====
-- What candidates that pass `validateBatchCandidates` refer to.
use mujeeb24_backend_go.Common.{
  String, ◌==◌, ==_iff, ◌≡◌, refl, ◌⊎◌, inl, inr, false, List, [], ◌∷◌, map, Option, none, some, ok,
  arith, Map, lookup, put, has, All, In, Bool-cases, Option-cases, >>=-eq-ok,
}
use mujeeb24_backend_go.Catalog.Projection.{
  CatalogAiVariant, CatalogAiOffer, CatalogAiItem, CatalogAiBatchPayload,
}
use mujeeb24_backend_go.Common.{has-In}
use mujeeb24_backend_go.Catalog.Session.{CatalogBatchCandidate}
use mujeeb24_backend_go.Catalog.Candidates.{
  index_last, check_variant_ids, check_offer_ids, check_candidate, check_candidates,
  validate_batch_candidates, is_foreign, variant_name,
}

module _ {A : Type 0} (id : A → String) where
  -- An element of the list with this identifier.
  abbrev pub Named : String → List A → Type 0
  Named k xs = (x : A) × In x xs × (id x ≡ k)

  Named-map : (k : String) (xs : List A) → In k (map id xs) → Named k xs
  Named-map k [] h = absurd h
  Named-map k (x ∷ xs) (inl e) = (x, inl refl, e)
  Named-map k (x ∷ xs) (inr h) = let (y, i, e) = Named-map k xs h in (y, inr i, e)

  pub index_last_sound :
      (xs : List A) (m : Map A) (k : String) (y : A)
      → lookup k (index_last id xs m) ≡ some y
      → (In y xs × (id y ≡ k)) ⊎ (lookup k m ≡ some y)
  unfolding index_last
  index_last_sound [] m k y e = inr e
  index_last_sound (x ∷ xs) m k y e = elim (index_last_sound xs (put (id x) x m) k y e) [
    | inl (i, p) ↦ inl (inr i, p)
    | inr q ↦ elim (Bool-cases (id x == k)) [
      | inl same_key ↦ ground (arith, ==_iff (id x) k)
      | inr other ↦ inr (rw other at q)
    ]
  ]

-- The offer can go with the selected variants: none is selected, or it is for the whole item, or it
-- is for one of them.
abbrev pub Compatible : CatalogAiOffer → List String → Type 0
Compatible offer selected =
    (selected ≡ [])
    ⊎ (variant_name offer.variant_id ≡ "")
    ⊎ In (variant_name offer.variant_id) selected

-- The candidate names an item of the batch, variants of that item, and offers of it that go with
-- these variants.
abbrev pub Supported : CatalogAiBatchPayload → CatalogBatchCandidate → Type 0
Supported batch c =
    (item : CatalogAiItem) × In item batch.items
    × (item.id ≡ c.item_id)
    × All (λ v. Named (λ (x : CatalogAiVariant). x.id) v item.variants) c.variant_ids
    × All
        (λ o.
          (offer : CatalogAiOffer) × In offer item.offers
          × (offer.id ≡ o)
          × Compatible offer c.variant_ids)
        c.offer_ids

compatible_of :
    (v : Option String) (selected : List String)
    → is_foreign v selected ≡ false
    → (selected ≡ []) ⊎ (variant_name v ≡ "") ⊎ In (variant_name v) selected
compatible_of none selected h = inr (inl refl)
compatible_of (some v) [] h = inl refl
compatible_of (some v) (s ∷ ss) h = elim (Bool-cases (v == "")) [
  | inl e ↦ inr (inl ((==_iff v "").0 e))
  | inr n ↦ elim (Bool-cases (has v (s ∷ ss))) [
    | inl i ↦ inr (inr (has-In v (s ∷ ss) i))
    | inr o ↦ ground arith
  ]
]

not-foreign :
    (offer : CatalogAiOffer) (selected : List String)
    → is_foreign offer.variant_id selected ≡ false
    → Compatible offer selected
not-foreign offer selected h = compatible_of offer.variant_id selected h

check_variant_ids_sound :
    (item_id : String) (variants : List CatalogAiVariant) (ids : List String)
    → check_variant_ids item_id (map (λ v. v.id) variants) ids ≡ ok tt
    → All (λ v. Named (λ (x : CatalogAiVariant). x.id) v variants) ids
unfolding check_variant_ids
check_variant_ids_sound item_id variants [] h = tt
check_variant_ids_sound item_id variants (v ∷ vs) h =
    elim (Bool-cases (has v (map (λ x. x.id) variants))) [
      | inl i ↦ (
        Named-map (λ x. x.id) v variants (has-In v (map (λ x. x.id) variants) i),
        check_variant_ids_sound item_id variants vs (rw i at h),
      )
      | inr o ↦ ground arith
    ]

check_offer_ids_sound :
    (item_id : String) (offers : List CatalogAiOffer) (selected ids : List String)
    → check_offer_ids item_id (index_last (λ o. o.id) offers []) selected ids ≡ ok tt
    → All
        (λ o.
          (offer : CatalogAiOffer) × In offer offers × (offer.id ≡ o) × Compatible offer selected)
        ids
unfolding check_offer_ids
check_offer_ids_sound item_id offers selected [] h = tt
check_offer_ids_sound item_id offers selected (o ∷ os) h =
    elim (Option-cases (lookup o (index_last (λ x. x.id) offers []))) [
      | inl absent ↦ ground arith
      | inr (offer, found) ↦ elim (Bool-cases (is_foreign offer.variant_id selected)) [
        | inl foreign ↦ ground arith
        | inr fine ↦ elim (index_last_sound (λ x. x.id) offers [] o offer found) [
          | inl (i, e) ↦ (
            (offer, i, e, not-foreign offer selected fine),
            check_offer_ids_sound item_id offers selected os (ground arith),
          )
          | inr none_before ↦ cc
        ]
      ]
    ]

check_candidate_sound :
    (batch : CatalogAiBatchPayload) (c : CatalogBatchCandidate)
    → check_candidate (index_last (λ x. x.id) batch.items []) c ≡ ok tt
    → Supported batch c
unfolding check_candidate
check_candidate_sound batch c h =
    elim (Option-cases (lookup c.item_id (index_last (λ x. x.id) batch.items []))) [
      | inl absent ↦ ground arith
      | inr (item, found) ↦
          let (u, p, q) =
            >>=-eq-ok (check_variant_ids c.item_id (map (λ v. v.id) item.variants) c.variant_ids)
              (λ _.
                check_offer_ids c.item_id (index_last (λ o. o.id) item.offers []) c.variant_ids
                  c.offer_ids)
              (rw (check_candidate, found) at h) in
          elim (index_last_sound (λ x. x.id) batch.items [] c.item_id item found) [
            | inl (i, e) ↦ (
              item,
              i,
              e,
              check_variant_ids_sound c.item_id item.variants c.variant_ids p,
              check_offer_ids_sound c.item_id item.offers c.variant_ids c.offer_ids q,
            )
            | inr none_before ↦ cc
          ]
    ]

check_candidates_sound :
    (batch : CatalogAiBatchPayload) (cs : List CatalogBatchCandidate)
    → check_candidates (index_last (λ x. x.id) batch.items []) cs ≡ ok tt
    → All (Supported batch) cs
unfolding check_candidates
check_candidates_sound batch [] h = tt
check_candidates_sound batch (c ∷ cs) h =
    let (u, p, q) =
      >>=-eq-ok (check_candidate (index_last (λ x. x.id) batch.items []) c)
        (λ _. check_candidates (index_last (λ x. x.id) batch.items []) cs) h in
    (check_candidate_sound batch c p, check_candidates_sound batch cs q)

-- Candidates that pass the check refer only to items, variants and offers of the batch, each variant
-- and offer under its own item, and no offer is for a variant that is not selected when some are.
pub validate_batch_candidates-Supported :
    (batch : CatalogAiBatchPayload) (candidates : List CatalogBatchCandidate)
    → validate_batch_candidates batch candidates ≡ ok tt
    → All (Supported batch) candidates
unfolding validate_batch_candidates
validate_batch_candidates-Supported batch candidates h = check_candidates_sound batch candidates h
