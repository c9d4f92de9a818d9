-- ===== src/Catalog/Candidates.antt =====
-- The candidates that the evaluator returns: `validateBatchCandidates`, `normalizeBatchCandidates`
-- and `appendCandidateProjection` of services/catalog_batch_controller.go.
pub mod Evidence
pub mod Normal
pub mod Merge
pub mod Select
use mujeeb24_backend_go.Common.{
  String, ◌==◌, Bool, true, false, ◌&&◌, ◌||◌, not, List, [], ◌∷◌, ◌++◌, map, Option, none, some,
  Result, ok, err, ◌>>=◌, ◌>>◌, Map, lookup, put, has, if◌then◌else◌,
}
use mujeeb24_backend_go.Catalog.Projection.{
  CatalogAiCatalog, CatalogAiAttributeSchema, CatalogAiOffer, CatalogAiItem, CatalogAiProjection,
  CatalogAiBatchPayload,
}
use mujeeb24_backend_go.Catalog.Session.{
  CatalogBatchCandidate, CandidateError, unknown_item, unknown_variant, unknown_offer,
  foreign_offer,
}

-- `for _, x := range xs { m[x.ID] = x }`
pub index_last : {A : Type 0} → (A → String) → List A → Map A → Map A
index_last id [] m = m
index_last id (x ∷ xs) m = index_last id xs (put (id x) x m)

pub check_variant_ids : String → List String → List String → Result CandidateError (Unit {0})
check_variant_ids item_id variants [] = ok tt
check_variant_ids item_id variants (v ∷ vs) =
    if has v variants
    then check_variant_ids item_id variants vs
    else err (unknown_variant v item_id)

abbrev pub no_ids : List String → Bool
no_ids [] = true
no_ids (x ∷ xs) = false

-- The offer names a variant, some are selected, and it is not one of them.
abbrev pub is_foreign : Option String → List String → Bool
is_foreign none selected = false
is_foreign (some v) selected = not (no_ids selected) && not (v == "") && not (has v selected)

abbrev pub variant_name : Option String → String
variant_name none = ""
variant_name (some v) = v

pub check_offer_ids :
    String → Map CatalogAiOffer → List String → List String → Result CandidateError (Unit {0})
check_offer_ids item_id offers selected [] = ok tt
check_offer_ids item_id offers selected (o ∷ os) = elim (lookup o offers) [
  | none ↦ err (unknown_offer o item_id)
  | some offer ↦
      if is_foreign offer.variant_id selected
      then err (foreign_offer o (variant_name offer.variant_id) item_id)
      else check_offer_ids item_id offers selected os
]

pub check_candidate : Map CatalogAiItem → CatalogBatchCandidate → Result CandidateError (Unit {0})
check_candidate items candidate = elim (lookup candidate.item_id items) [
  | none ↦ err (unknown_item candidate.item_id)
  | some item ↦
      check_variant_ids candidate.item_id (map (λ v. v.id) item.variants) candidate.variant_ids
      >> check_offer_ids candidate.item_id (index_last (λ o. o.id) item.offers [])
          candidate.variant_ids candidate.offer_ids
]

pub check_candidates :
    Map CatalogAiItem → List CatalogBatchCandidate → Result CandidateError (Unit {0})
check_candidates items [] = ok tt
check_candidates items (c ∷ cs) = check_candidate items c >> check_candidates items cs

pub validate_batch_candidates :
    CatalogAiBatchPayload → List CatalogBatchCandidate → Result CandidateError (Unit {0})
validate_batch_candidates batch candidates =
    check_candidates (index_last (λ x. x.id) batch.items []) candidates

-- Appends the identifiers that are not there yet. The maps `variantSeen` and `offerSeen` hold, for
-- each item, what was appended to its entry of `out`.
pub merge_ids : List String → List String → List String
merge_ids out [] = out
merge_ids out (v ∷ vs) = merge_ids (if has v out then out else out ++ v ∷ []) vs

-- A new entry, and an entry that takes in another candidate for its item.
pub new_entry : CatalogBatchCandidate → CatalogBatchCandidate
new_entry c = record {
  item_id = c.item_id;
  variant_ids = merge_ids [] c.variant_ids;
  offer_ids = merge_ids [] c.offer_ids;
  reason = c.reason;
}

pub extend_entry : CatalogBatchCandidate → CatalogBatchCandidate → CatalogBatchCandidate
extend_entry o c = record {
  item_id = o.item_id;
  variant_ids = merge_ids o.variant_ids c.variant_ids;
  offer_ids = merge_ids o.offer_ids c.offer_ids;
  reason = if o.reason == "" then c.reason else o.reason;
}

-- The body of the loop of `normalizeBatchCandidates`. The map `index` holds the position of each
-- item's entry in `out`.
pub merge_candidate :
    CatalogBatchCandidate → List CatalogBatchCandidate → List CatalogBatchCandidate
unfolding new_entry extend_entry
merge_candidate c [] = new_entry c ∷ []
merge_candidate c (o ∷ out) =
    if o.item_id == c.item_id then extend_entry o c ∷ out else o ∷ merge_candidate c out

pub normalize_onto :
    List CatalogBatchCandidate → List CatalogBatchCandidate → List CatalogBatchCandidate
normalize_onto out [] = out
normalize_onto out (c ∷ cs) = normalize_onto (merge_candidate c out) cs

unfoldable pub normalize_batch_candidates : List CatalogBatchCandidate → List CatalogBatchCandidate
unfolding normalize_onto merge_candidate merge_ids
normalize_batch_candidates candidates = normalize_onto [] candidates

-- The loop over the items of the batch: the items appended, and the new `seen`.
pub append_items :
    List String
    → List CatalogAiItem
    → List CatalogAiItem
    → List String
    → List CatalogAiItem × List String
append_items selected [] items seen = (items, seen)
append_items selected (x ∷ xs) items seen =
    let takes = has x.id selected && not (has x.id seen) in
    append_items selected xs (if takes then items ++ x ∷ [] else items)
      (if takes then x.id ∷ seen else seen)

abbrev pub any {ℓ} : {A : Type ℓ} → (A → Bool) → List A → Bool
any p [] = false
any p (x ∷ xs) = p x || any p xs

-- The loops over the catalogs and the schemas: what is not known yet and is used by some item.
pub append_used :
    {A : Type 0}
    → (A → String)
    → (String → CatalogAiItem → Bool)
    → List CatalogAiItem
    → List A
    → List A
    → List A
append_used id uses items [] out = out
append_used id uses items (x ∷ xs) out =
    append_used id uses items xs
      (if not (has (id x) (map id out)) && any (uses (id x)) items then out ++ x ∷ [] else out)

abbrev pub in_catalog : String → CatalogAiItem → Bool
in_catalog id item = item.catalog_id == id

abbrev pub is_id : Option String → String → Bool
is_id none id = false
is_id (some s) id = s == id

abbrev pub has_schema : String → CatalogAiItem → Bool
has_schema id item = is_id item.attribute_schema_id id

unfoldable pub append_candidate_projection :
    CatalogAiProjection
    → CatalogAiBatchPayload
    → List CatalogBatchCandidate
    → List String
    → CatalogAiProjection × List String
unfolding append_items append_used
append_candidate_projection target batch candidates seen =
    let selected = map (λ c. c.item_id) (normalize_batch_candidates candidates) in
    let (items, seen') = append_items selected batch.items target.items seen in
    (
      record {
        catalogs = append_used (λ c. c.id) in_catalog items batch.catalogs target.catalogs;
        attribute_schemas =
            append_used (λ s. s.id) has_schema items batch.attribute_schemas
              target.attribute_schemas;
        items = items;
      },
      seen',
    )

-- What a run on candidates unfolds.
unfoldable pub candidates_code : Unit {0}
unfolding index_last check_variant_ids check_offer_ids check_candidate check_candidates
    validate_batch_candidates merge_ids new_entry extend_entry merge_candidate normalize_onto
    normalize_batch_candidates append_items append_used append_candidate_projection
candidates_code = tt
