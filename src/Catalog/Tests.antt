-- ===== src/Catalog/Tests.antt =====
-- Runs of the batching code on a small catalog, and the theorems about it at these inputs.
mod Runs
use mathlib.Core.List.{Perm}
use mujeeb24_backend_go.Common.{
  ℕ, ◌*◌, String, ◌≡◌, refl, ◌↔◌, true, false, List, [], ◌∷◌, ◌++◌, Option, none, some, ok, err,
  length, All,
}
use mujeeb24_backend_go.Common.Int.{pos}
use mujeeb24_backend_go.Catalog.Projection.{
  CatalogAiCatalog, CatalogAiAttributeSchema, CatalogAiVariant, CatalogAiOffer, CatalogAiItem,
  CatalogAiProjection, CatalogAiBatchPayload, end,
}
use mujeeb24_backend_go.Catalog.Coverage.{
  validate_catalog_batch_coverage, coverage_code, uncovered_item, duplicated_item,
}
use mujeeb24_backend_go.Catalog.Coverage.Exact.{validate_catalog_batch_coverage-perm}
use mujeeb24_backend_go.Catalog.Session.{
  CatalogBatchCandidate, CatalogEvaluationInput, Controller, foreign_offer,
}
use mujeeb24_backend_go.Catalog.Split.{split_into_batches_mode, split_code}
use mujeeb24_backend_go.Catalog.Split.Batches.{SplitResult, split_into_batches_mode_lem}
use mujeeb24_backend_go.Catalog.Candidates.{
  validate_batch_candidates, normalize_batch_candidates, candidates_code,
}
use mujeeb24_backend_go.Catalog.Candidates.Evidence.{Supported, validate_batch_candidates-Supported}
use mujeeb24_backend_go.Catalog.Candidates.Normal.{names_item, IsNormal, normalize-normalize}
use mujeeb24_backend_go.Catalog.Candidates.Merge.{Refers, variants, Refers-normalize}
use mujeeb24_backend_go.Catalog.Samples.{
  shop, sizes, variant_of, offer_of, item_of, shirt, mug, stock,
}

abbrev batch_of : ℕ → List CatalogAiAttributeSchema → List CatalogAiItem → CatalogAiBatchPayload
batch_of n schemas items = record {
  batch_number = n;
  catalogs = shop ∷ [];
  attribute_schemas = schemas;
  items = items;
}

abbrev two_batches : List CatalogAiBatchPayload
two_batches = batch_of 1 (sizes ∷ []) (shirt ∷ []) ∷ batch_of 2 [] (mug ∷ []) ∷ []

covers : validate_catalog_batch_coverage stock two_batches ≡ ok tt
unfolding coverage_code
covers = refl

misses_mug :
    validate_catalog_batch_coverage stock (batch_of 1 (sizes ∷ []) (shirt ∷ []) ∷ [])
    ≡ err (uncovered_item "mug")
unfolding coverage_code
misses_mug = refl

repeats_mug :
    validate_catalog_batch_coverage stock (two_batches ++ batch_of 3 [] (mug ∷ []) ∷ [])
    ≡ err (duplicated_item "mug")
unfolding coverage_code
repeats_mug = refl

validate_catalog_batch_coverage-perm_example : Perm (shirt ∷ mug ∷ []) stock.items
validate_catalog_batch_coverage-perm_example =
    validate_catalog_batch_coverage-perm stock two_batches covers

-- An evaluator that estimates 3000 tokens an item, and a budget that is not set.
abbrev demo : Controller Unit Unit Unit Unit
demo = record {
  token_budget = pos 0;
  estimates_batches = true;
  estimates_final = true;
  records_usage = false;
  map_order = λ schemas. schemas;
  now = length;
  new_id = λ h. "batch";
  context_cancelled = λ h. false;
  revision = λ b h. ok "r1";
  page = λ r h. ok (record { projection = stock; next_cursor = ""; has_more = false });
  created = λ r h. ok r;
  updated = λ i p h. ok tt;
  batch_tokens = λ b h. ok (pos (3000 * length b.batch.items));
  evaluated = λ b h. ok (record { batch_number = b.batch_number; candidates = []; usage = tt });
  final_tokens = λ f p h. ok (pos 1);
  final_answer = λ f p h. ok (tt, tt);
  is_terminal = λ d. true;
  error_text = λ e. "invalid";
}

abbrev question : CatalogEvaluationInput Unit Unit
question = record {
  source_message_reference = "m1";
  ai_run_id = "run";
  attempt_id = "try";
  business_id = "b1";
  conversation_id = "c1";
  catalog_scope = "";
  customer_message = "shirt?";
  conversation_context = tt;
  entity_contract = tt;
}

abbrev three_items : CatalogAiProjection
three_items = record stock { items = shirt ∷ mug ∷ item_of "cap" none [] [] ∷ [] }

splits_in_two :
    (split_into_batches_mode demo question three_items false 1 []).0
    ≡ ok (
        batch_of 1 (sizes ∷ []) (shirt ∷ [])
        ∷ batch_of 2 [] (mug ∷ item_of "cap" none [] [] ∷ [])
        ∷ [])
unfolding split_code
splits_in_two = refl

split_into_batches_mode_example :
    SplitResult demo question three_items false three_items.items 1
      (split_into_batches_mode demo question three_items false 1 []).0
split_into_batches_mode_example = split_into_batches_mode_lem demo question three_items false 1 []

abbrev candidate : String → List String → List String → CatalogBatchCandidate
candidate id vs os = record { item_id = id; variant_ids = vs; offer_ids = os; reason = "" }

abbrev good : List CatalogBatchCandidate
good = candidate "shirt" ("small" ∷ []) ("shirt_small" ∷ "shirt_any" ∷ []) ∷ []

supported : validate_batch_candidates (batch_of 1 (sizes ∷ []) (shirt ∷ [])) good ≡ ok tt
unfolding candidates_code
supported = refl

wrong_variant :
    validate_batch_candidates
      (batch_of 1 (sizes ∷ []) (shirt ∷ []))
      (candidate "shirt" ("large" ∷ []) ("shirt_small" ∷ []) ∷ [])
    ≡ err (foreign_offer "shirt_small" "small" "shirt")
unfolding candidates_code
wrong_variant = refl

validate_batch_candidates-Supported_example :
    All (Supported (batch_of 1 (sizes ∷ []) (shirt ∷ []))) good
validate_batch_candidates-Supported_example =
    validate_batch_candidates-Supported (batch_of 1 (sizes ∷ []) (shirt ∷ [])) good supported

abbrev repeated : List CatalogBatchCandidate
repeated =
    candidate "shirt" ("small" ∷ "small" ∷ []) []
    ∷ candidate "mug" [] ("mug_any" ∷ [])
    ∷ candidate "shirt" ("large" ∷ "small" ∷ []) ("shirt_any" ∷ [])
    ∷ []

merges :
    normalize_batch_candidates repeated
    ≡ candidate "shirt" ("small" ∷ "large" ∷ []) ("shirt_any" ∷ [])
      ∷ candidate "mug" [] ("mug_any" ∷ [])
      ∷ []
unfolding candidates_code
merges = refl

normalize-normalize_example :
    IsNormal (normalize_batch_candidates repeated)
    × ((i : String) → names_item i (normalize_batch_candidates repeated) ≡ names_item i repeated)
    × (normalize_batch_candidates (normalize_batch_candidates repeated)
        ≡ normalize_batch_candidates repeated)
normalize-normalize_example = normalize-normalize repeated

Refers-normalize_example :
    Refers variants "shirt" "large" (normalize_batch_candidates repeated)
    ↔ Refers variants "shirt" "large" repeated
Refers-normalize_example = Refers-normalize variants "shirt" "large" repeated
