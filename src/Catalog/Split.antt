-- ===== src/Catalog/Split.antt =====
-- `splitIntoBatchesMode` of services/catalog_batch_controller.go: the items are halved until the
-- request of each batch fits the token budget.
pub mod Exact
pub mod Outcome
pub mod Batches
use mujeeb24_backend_go.Common.{
  ℕ, zero, suc, ◌+◌, ◌/◌, String, ◌==◌, Bool, true, false, List, [], ◌∷◌, ◌++◌, map, Option, none,
  some, ok, err, Map, assign, has, length, take, drop, eqb, if◌then◌else◌,
}
use mujeeb24_backend_go.Common.Int.{ℤ, pos, leb_ℤ}
use mujeeb24_backend_go.Catalog.Projection.{
  CatalogAiCatalog, CatalogAiAttributeSchema, CatalogAiItem, CatalogAiProjection,
  CatalogAiBatchPayload,
}
use mujeeb24_backend_go.Catalog.Coverage.{validate_catalog_batch_coverage, coverage_code}
use mujeeb24_backend_go.Catalog.Session.{
  CatalogEvaluationInput, BatchEvaluationInput, CatalogError, Call, Session, Controller, pure, fail,
  perform, ◌>>=◌, ◌>>◌, estimator_required, item_exceeds_budget, coverage, out_of_fuel,
  count_batch_tokens,
}

pub find_schema : String → List CatalogAiAttributeSchema → Option CatalogAiAttributeSchema
find_schema id [] = none
find_schema id (s ∷ ss) = if s.id == id then some s else find_schema id ss

-- The body of the loop that fills `schemaByID`.
pub add_schema :
    List CatalogAiAttributeSchema
    → Option String
    → Map CatalogAiAttributeSchema
    → Map CatalogAiAttributeSchema
add_schema schemas none m = m
add_schema schemas (some id) m = elim (find_schema id schemas) [
  | none ↦ m
  | some s ↦ assign s.id s m
]

pub schemas_by_id :
    List CatalogAiAttributeSchema
    → List CatalogAiItem
    → Map CatalogAiAttributeSchema
    → Map CatalogAiAttributeSchema
schemas_by_id schemas [] m = m
schemas_by_id schemas (x ∷ xs) m =
    schemas_by_id schemas xs (add_schema schemas x.attribute_schema_id m)

pub filter_catalogs : List String → List CatalogAiCatalog → List CatalogAiCatalog
filter_catalogs needed [] = []
filter_catalogs needed (c ∷ cs) =
    if has c.id needed then c ∷ filter_catalogs needed cs else filter_catalogs needed cs

-- `collectCatalogsForItems`
pub collect_catalogs_for_items : List CatalogAiItem → List CatalogAiCatalog → List CatalogAiCatalog
collect_catalogs_for_items items catalogs = filter_catalogs (map (λ x. x.catalog_id) items) catalogs

abbrev pub default_budget : ℤ
default_budget = pos 8000

-- `budget <= 0` is replaced by the default.
pub effective_budget : ℤ → ℤ
effective_budget budget = if leb_ℤ budget (pos 0) then default_budget else budget

module _ {Context Contract Usage Decision : Type 0} (c : Controller Context Contract Usage Decision)
    (input : CatalogEvaluationInput Context Contract) (projection : CatalogAiProjection)
    (reduction : Bool) where
  -- The closure `buildBatch`, with `collectSchemas`.
  pub build_batch : List CatalogAiItem → ℕ → CatalogAiBatchPayload
  build_batch items number = record {
    batch_number = number;
    catalogs = collect_catalogs_for_items items projection.catalogs;
    attribute_schemas =
        c.map_order (map (λ e. e.1) (schemas_by_id projection.attribute_schemas items []));
    items = items;
  }

  pub batch_input : CatalogAiBatchPayload → BatchEvaluationInput Context Contract
  batch_input batch = record {
    ai_run_id = input.ai_run_id;
    attempt_id = input.attempt_id;
    batch_number = batch.batch_number;
    business_id = input.business_id;
    conversation_id = input.conversation_id;
    customer_message = input.customer_message;
    conversation_context = input.conversation_context;
    entity_contract = input.entity_contract;
    batch = batch;
    reduction = reduction;
  }

  -- The closure `countBatch`.
  pub count_batch : CatalogAiBatchPayload → Session (Call Context Contract Usage) ℤ
  count_batch batch =
      perform (count_batch_tokens (batch_input batch)) (c.batch_tokens (batch_input batch))

  -- What `split` does once the tokens of a batch are counted; `halves` is the rest, which is run
  -- only when the batch does not fit and can be divided.
  pub after_count :
      CatalogAiItem
      → ℕ
      → List CatalogAiBatchPayload
      → CatalogAiBatchPayload
      → ℕ
      → Session (Call Context Contract Usage) (List CatalogAiBatchPayload × ℕ)
      → ℤ
      → Session (Call Context Contract Usage) (List CatalogAiBatchPayload × ℕ)
  after_count x size batches batch number halves tokens =
      let budget = effective_budget c.token_budget in
      if leb_ℤ tokens budget
      then pure (batches ++ batch ∷ [], number + 1)
      else if eqb size 1
      then fail (item_exceeds_budget x.id budget tokens)
      else halves

  -- The closure `split`, on the batches made so far and the next number. Each call halves the list,
  -- so one more round than there are items is fuel enough.
  pub split :
      ℕ
      → List CatalogAiItem
      → List CatalogAiBatchPayload
      → ℕ
      → Session (Call Context Contract Usage) (List CatalogAiBatchPayload × ℕ)
  split zero items batches number = fail out_of_fuel
  split (suc fuel) [] batches number = pure (batches, number)
  split (suc fuel) (x ∷ xs) batches number =
      let items = x ∷ xs in
      let batch = build_batch items number in
      let mid = length items / 2 in
      let halves =
        split fuel (take mid items) batches number >>= λ r. split fuel (drop mid items) r.0 r.1 in
      count_batch batch >>= after_count x (length items) batches batch number halves

  pub checked :
      List CatalogAiBatchPayload
      → Session (Call Context Contract Usage) (List CatalogAiBatchPayload)
  checked batches = elim (validate_catalog_batch_coverage projection batches) [
    | ok _ ↦ pure batches
    | err e ↦ fail (coverage e)
  ]

  abbrev pub first_number : ℕ → ℕ
  first_number zero = 1
  first_number (suc n) = suc n

  pub split_items :
      ℕ → List CatalogAiItem → Session (Call Context Contract Usage) (List CatalogAiBatchPayload)
  split_items start [] = pure []
  split_items start (x ∷ xs) =
      if c.estimates_batches
      then (split (suc (length (x ∷ xs))) (x ∷ xs) [] (first_number start) >>= λ r. checked r.0)
      else fail estimator_required

  unfoldable pub split_into_batches_mode :
      ℕ → Session (Call Context Contract Usage) (List CatalogAiBatchPayload)
  split_into_batches_mode start = split_items start projection.items

-- What a run of the splitting unfolds.
unfoldable pub split_code : Unit {0}
unfolding find_schema add_schema schemas_by_id filter_catalogs collect_catalogs_for_items
    effective_budget build_batch batch_input count_batch after_count split checked split_items
    split_into_batches_mode coverage_code
split_code = tt
