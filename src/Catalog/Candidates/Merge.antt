-- ===== src/Catalog/Candidates/Merge.antt =====
-- `normalizeBatchCandidates` loses and invents no reference.
use mujeeb24_backend_go.Common.{
  String, ◌==◌, ==_iff, ◌≡◌, sym, ◌∙◌, ◌↔◌, ◌⊎◌, inl, inr, List, [], ◌∷◌, ◌++◌, has, In, In-append,
  In-append_left, In-append_right, Bool-cases, if◌then◌else◌,
}
use mujeeb24_backend_go.Common.{has-In}
use mujeeb24_backend_go.Catalog.Session.{CatalogBatchCandidate}
use mujeeb24_backend_go.Catalog.Candidates.{
  new_entry, extend_entry, merge_ids, merge_candidate, normalize_onto, normalize_batch_candidates,
}

-- The two lists of references of a candidate.
pub data Part : Type 0 where
  variants offers : Part

abbrev pub references : Part → CatalogBatchCandidate → List String
references variants c = c.variant_ids
references offers c = c.offer_ids

-- Some candidate for item `i` refers to `v`.
abbrev pub Refers : Part → String → String → List CatalogBatchCandidate → Type 0
Refers p i v [] = ⊥
Refers p i v (c ∷ cs) = ((c.item_id ≡ i) × In v (references p c)) ⊎ Refers p i v cs

merge_ids-In_to : (v : String) (out vs : List String) → In v (merge_ids out vs) → In v out ⊎ In v vs
unfolding merge_ids
merge_ids-In_to v out [] h = inl h
merge_ids-In_to v out (w ∷ vs) h = elim (Bool-cases (has w out)) [
  | inl seen ↦ elim (merge_ids-In_to v out vs (rw seen at h)) [
    | inl i ↦ inl i
    | inr j ↦ inr (inr j)
  ]
  | inr new ↦ elim (merge_ids-In_to v (out ++ w ∷ []) vs (rw new at h)) [
    | inl i ↦ elim (In-append v out (w ∷ []) i) [
      | inl j ↦ inl j
      | inr (inl e) ↦ inr (inl e)
      | inr (inr x) ↦ absurd x
    ]
    | inr j ↦ inr (inr j)
  ]
]

merge_ids-In_left : (v : String) (out vs : List String) → In v out → In v (merge_ids out vs)
unfolding merge_ids
merge_ids-In_left v out [] h = h
merge_ids-In_left v out (w ∷ vs) h = elim (Bool-cases (has w out)) [
  | inl seen ↦ rw seen (merge_ids-In_left v out vs h)
  | inr new ↦ rw new (merge_ids-In_left v (out ++ w ∷ []) vs (In-append_left v out (w ∷ []) h))
]

merge_ids-In_right : (v : String) (out vs : List String) → In v vs → In v (merge_ids out vs)
unfolding merge_ids
merge_ids-In_right v out [] h = absurd h
merge_ids-In_right v out (w ∷ vs) (inl e) = elim (Bool-cases (has w out)) [
  | inl seen ↦ rw seen (merge_ids-In_left v out vs (rw e at (has-In w out seen)))
  | inr new ↦
      rw new (merge_ids-In_left v (out ++ w ∷ []) vs (In-append_right v out (w ∷ []) (inl e)))
]
merge_ids-In_right v out (w ∷ vs) (inr i) =
    merge_ids-In_right v (if has w out then out else out ++ w ∷ []) vs i

module _ (i v : String) where
  new_entry-to :
      (p : Part) (c : CatalogBatchCandidate)
      → In v (references p (new_entry c))
      → In v (references p c)
  unfolding new_entry
  new_entry-to variants c h = elim (merge_ids-In_to v [] c.variant_ids h) [
    | inl x ↦ absurd x
    | inr j ↦ j
  ]
  new_entry-to offers c h = elim (merge_ids-In_to v [] c.offer_ids h) [
    | inl x ↦ absurd x
    | inr j ↦ j
  ]

  new_entry-from :
      (p : Part) (c : CatalogBatchCandidate)
      → In v (references p c)
      → In v (references p (new_entry c))
  unfolding new_entry
  new_entry-from variants c h = merge_ids-In_right v [] c.variant_ids h
  new_entry-from offers c h = merge_ids-In_right v [] c.offer_ids h

  extend_entry-to :
      (p : Part) (o c : CatalogBatchCandidate)
      → In v (references p (extend_entry o c))
      → In v (references p o) ⊎ In v (references p c)
  unfolding extend_entry
  extend_entry-to variants o c h = merge_ids-In_to v o.variant_ids c.variant_ids h
  extend_entry-to offers o c h = merge_ids-In_to v o.offer_ids c.offer_ids h

  extend_entry-from :
      (p : Part) (o c : CatalogBatchCandidate)
      → In v (references p o) ⊎ In v (references p c)
      → In v (references p (extend_entry o c))
  unfolding extend_entry
  extend_entry-from variants o c (inl h) = merge_ids-In_left v o.variant_ids c.variant_ids h
  extend_entry-from variants o c (inr h) = merge_ids-In_right v o.variant_ids c.variant_ids h
  extend_entry-from offers o c (inl h) = merge_ids-In_left v o.offer_ids c.offer_ids h
  extend_entry-from offers o c (inr h) = merge_ids-In_right v o.offer_ids c.offer_ids h

  module _ (p : Part) where
    -- The candidate itself refers to `v`, for item `i`.
    abbrev RefersBy : CatalogBatchCandidate → Type 0
    RefersBy c = (c.item_id ≡ i) × In v (references p c)

    merge_candidate-to :
        (c : CatalogBatchCandidate) (out : List CatalogBatchCandidate)
        → Refers p i v (merge_candidate c out)
        → RefersBy c ⊎ Refers p i v out
    unfolding merge_candidate
    merge_candidate-to c [] (inl (e, h)) = inl (e, new_entry-to p c h)
    merge_candidate-to c [] (inr h) = absurd h
    merge_candidate-to c (o ∷ out) h = elim (Bool-cases (o.item_id == c.item_id)) [
      | inl here ↦ elim (rw (here, merge_candidate) at h) [
        | inl (e, j) ↦ elim (extend_entry-to p o c j) [
          | inl old ↦ inr (inl (e, old))
          | inr new ↦ inl (sym ((==_iff o.item_id c.item_id).0 here) ∙ e, new)
        ]
        | inr rest ↦ inr (inr rest)
      ]
      | inr later ↦ elim (rw (later, merge_candidate) at h) [
        | inl old ↦ inr (inl old)
        | inr rest ↦ elim (merge_candidate-to c out rest) [
          | inl new ↦ inl new
          | inr old ↦ inr (inr old)
        ]
      ]
    ]

    merge_candidate-from :
        (c : CatalogBatchCandidate) (out : List CatalogBatchCandidate)
        → RefersBy c ⊎ Refers p i v out
        → Refers p i v (merge_candidate c out)
    unfolding merge_candidate
    merge_candidate-from c [] (inl (e, h)) = inl (e, new_entry-from p c h)
    merge_candidate-from c [] (inr h) = absurd h
    merge_candidate-from c (o ∷ out) h = elim (Bool-cases (o.item_id == c.item_id)) [
      | inl here ↦ rw (here, merge_candidate) (by_entry ((==_iff o.item_id c.item_id).0 here) h)
      | inr later ↦ rw (later, merge_candidate) (by_rest (merge_candidate-from c out) h)
    ]
      where
        by_entry :
            o.item_id ≡ c.item_id
            → RefersBy c ⊎ Refers p i v (o ∷ out)
            → Refers p i v (extend_entry o c ∷ out)
        by_entry same_item (inl (e, new)) = inl (same_item ∙ e, extend_entry-from p o c (inr new))
        by_entry same_item (inr (inl (e, old))) = inl (e, extend_entry-from p o c (inl old))
        by_entry same_item (inr (inr rest)) = inr rest

        by_rest :
            (RefersBy c ⊎ Refers p i v out → Refers p i v (merge_candidate c out))
            → RefersBy c ⊎ Refers p i v (o ∷ out)
            → Refers p i v (o ∷ merge_candidate c out)
        by_rest merged (inl new) = inr (merged (inl new))
        by_rest merged (inr (inl old)) = inl old
        by_rest merged (inr (inr rest)) = inr (merged (inr rest))

    normalize_onto-to :
        (out cs : List CatalogBatchCandidate)
        → Refers p i v (normalize_onto out cs)
        → Refers p i v out ⊎ Refers p i v cs
    unfolding normalize_onto
    normalize_onto-to out [] h = inl h
    normalize_onto-to out (c ∷ cs) h = elim (normalize_onto-to (merge_candidate c out) cs h) [
      | inl merged ↦ elim (merge_candidate-to c out merged) [
        | inl new ↦ inr (inl new)
        | inr old ↦ inl old
      ]
      | inr rest ↦ inr (inr rest)
    ]

    normalize_onto-from :
        (out cs : List CatalogBatchCandidate)
        → Refers p i v out ⊎ Refers p i v cs
        → Refers p i v (normalize_onto out cs)
    unfolding normalize_onto
    normalize_onto-from out [] (inl h) = h
    normalize_onto-from out [] (inr h) = absurd h
    normalize_onto-from out (c ∷ cs) (inl h) =
        normalize_onto-from (merge_candidate c out) cs (inl (merge_candidate-from c out (inr h)))
    normalize_onto-from out (c ∷ cs) (inr (inl h)) =
        normalize_onto-from (merge_candidate c out) cs (inl (merge_candidate-from c out (inl h)))
    normalize_onto-from out (c ∷ cs) (inr (inr h)) =
        normalize_onto-from (merge_candidate c out) cs (inr h)

-- A variant or an offer is referred to for an item after `normalizeBatchCandidates` exactly when it
-- was before.
pub Refers-normalize :
    (p : Part) (i v : String) (cs : List CatalogBatchCandidate)
    → Refers p i v (normalize_batch_candidates cs) ↔ Refers p i v cs
unfolding normalize_batch_candidates
Refers-normalize p i v cs = (
  λ h. elim (normalize_onto-to i v p [] cs h) [ inl x ↦ absurd x | inr r ↦ r ],
  λ h. normalize_onto-from i v p [] cs (inr h),
)
