-- ===== src/Catalog/Candidates/Select.antt =====
-- The items that `appendCandidateProjection` keeps.
use mujeeb24_backend_go.Common.{
  String, ◌⊎◌, inl, inr, Bool, true, false, ◌&&◌, not, List, [], ◌∷◌, ◌++◌, map, has, In, In-append,
  if◌then◌else◌,
}
use mujeeb24_backend_go.Catalog.Projection.{
  CatalogAiItem, CatalogAiProjection, CatalogAiBatchPayload,
}
use mujeeb24_backend_go.Catalog.Session.{CatalogBatchCandidate}
use mujeeb24_backend_go.Catalog.Candidates.{
  append_items, append_candidate_projection, normalize_batch_candidates,
}

In-grown :
    (xs : List CatalogAiItem) (takes : Bool) (x : CatalogAiItem) (items : List CatalogAiItem)
    (y : CatalogAiItem)
    → In y (if takes then items ++ x ∷ [] else items)
    → In y items ⊎ In y (x ∷ xs)
In-grown xs true x items y i = elim (In-append y items (x ∷ []) i) [
  | inl old ↦ inl old
  | inr (inl e) ↦ inr (inl e)
  | inr (inr none_left) ↦ absurd none_left
]
In-grown xs false x items y i = inl i

append_items-In :
    (selected : List String) (xs items : List CatalogAiItem) (seen : List String)
    (y : CatalogAiItem)
    → In y (append_items selected xs items seen).0
    → In y items ⊎ In y xs
unfolding append_items
append_items-In selected [] items seen y i = inl i
append_items-In selected (x ∷ xs) items seen y i =
    let takes = has x.id selected && not (has x.id seen) in
    elim (append_items-In selected xs (if takes then items ++ x ∷ [] else items)
      (if takes then x.id ∷ seen else seen) y i) [
        | inl j ↦ In-grown xs takes x items y j
        | inr j ↦ inr (inr j)
      ]

-- Only items of the batch are added.
pub append_candidate_projection-In :
    (target : CatalogAiProjection) (batch : CatalogAiBatchPayload)
    (candidates : List CatalogBatchCandidate) (seen : List String) (y : CatalogAiItem)
    → In y (append_candidate_projection target batch candidates seen).0.items
    → In y target.items ⊎ In y batch.items
unfolding append_candidate_projection
append_candidate_projection-In target batch candidates seen y i =
    append_items-In (map (λ c. c.item_id) (normalize_batch_candidates candidates)) batch.items
      target.items seen y i
