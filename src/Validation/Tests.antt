-- ===== src/Validation/Tests.antt =====
-- The validation on a small catalog.
use mujeeb24_backend_go.Common.{
  ◌*◌, ◌^◌, ◌<◌, String, ◌==◌, ◌≡◌, refl, true, false, [], ◌∷◌, Option, none, some, ok, length, In,
  All,
}
use mujeeb24_backend_go.Common.Text.{trim_space}
use mujeeb24_backend_go.Common.Int.{pos}
use mujeeb24_backend_go.Catalog.Projection.{CatalogAiItem, end}
use mujeeb24_backend_go.Catalog.Samples.{stock}
use mujeeb24_backend_go.Validation.{
  SelectedReference, SalesWorkflowProposal, CapabilityDecision, CustomerSalesContext,
  EffectiveDecision,
}
use mujeeb24_backend_go.Validation.Evidence.{contains_selection, evidence_from_projection}
use mujeeb24_backend_go.Validation.Evidence.Sound.{Shown, contains_selection-Shown}
use mujeeb24_backend_go.Validation.Quantity.{
  validate_sales_quantity, codes, scaled, numerator, fraction_part,
}
use mujeeb24_backend_go.Validation.Quantity.Bounds.{validate_sales_quantity_bounds}
use mujeeb24_backend_go.Validation.Policy.{BusinessRuntimePolicy, evaluate}
use mujeeb24_backend_go.Validation.Policy.Exact.{allows, evaluate-allows}
use mujeeb24_backend_go.Validation.Validators.{
  Database, validate_selection, validate_item_ownership, validate_variant_ownership,
  validate_offer_ownership,
}
use mujeeb24_backend_go.Validation.Pipeline.{validate}
use mujeeb24_backend_go.Validation.Stage.{ValidationInput}
use mujeeb24_backend_go.Validation.Pipeline.Safe.{Gated, has_service, validate-Gated}
use mujeeb24_backend_go.Validation.Pipeline.Structure.{Structured, SalesShown}
use mujeeb24_backend_go.Validation.Pipeline.Grounded.{production, Grounded, validate-Grounded}

abbrev small_shirt : SelectedReference
small_shirt = record { item_id = "shirt"; variant_id = some "small"; offer_id = some "shirt_small" }

contains_selection-Shown_example :
    (item : CatalogAiItem) × In item stock.items × Shown small_shirt item
unfolding contains_selection evidence_from_projection
contains_selection-Shown_example = contains_selection-Shown stock small_shirt refl

other_variant_refused :
    contains_selection
      (evidence_from_projection stock)
      (record small_shirt { variant_id = some "large" })
    ≡ false
unfolding contains_selection evidence_from_projection
other_variant_refused = refl

validate_sales_quantity_bounds_example :
    (0 < scaled (codes "12.5"))
    × (scaled (codes "12.5") < 10 ^ 20)
    × (scaled (codes "12.5") * 10 ^ length (fraction_part (codes "12.5"))
        ≡ numerator (codes "12.5") * 10 ^ 4)
unfolding validate_sales_quantity
validate_sales_quantity_bounds_example = validate_sales_quantity_bounds "12.5" refl

quantities :
    (validate_sales_quantity "0.0000" ≡ false)
    × (validate_sales_quantity "01" ≡ false)
    × (validate_sales_quantity "1." ≡ false)
    × (validate_sales_quantity "1.23456" ≡ false)
    × (scaled (codes "12.5") ≡ 125000)
unfolding validate_sales_quantity scaled codes
quantities = (refl, refl, refl, refl, refl)

abbrev automatic : BusinessRuntimePolicy
automatic = record {
  sales_workflow_enabled = true;
  allow_sales_interactions = true;
  ai_mode = "restricted_auto";
  default_human_review = false;
  allow_auto_reply = true;
  allow_auto_lead_creation = false;
  allow_auto_transaction_draft = false;
}

abbrev policies : String → Option BusinessRuntimePolicy
policies business = some automatic

abbrev reply : CapabilityDecision
reply = record {
  capability = "respond_without_action";
  response_text = "The small one is in stock";
  selected = small_shirt ∷ [];
  sales = none;
}

abbrev chat : CustomerSalesContext
chat = record {
  sales = none;
  business_reference = "b";
  ai_mode_override = "inherit";
  recent_messages = [];
}

evaluate-allows_example :
    ((evaluate policies reply (some chat)).decision == "allowed")
    ≡ allows policies "respond_without_action" (some chat)
evaluate-allows_example = evaluate-allows policies reply (some chat)

abbrev tables : Database
tables = record {
  catalogs = record { business_id = "b"; id = "shop"; status = "active" } ∷ [];
  items = record { business_id = "b"; id = "shirt"; catalog_id = "shop"; status = "active" } ∷ [];
  variants =
      record { business_id = "b"; id = "small"; catalog_item_id = "shirt"; status = "active" } ∷ [];
  offers =
      record {
        business_id = "b";
        id = "shirt_small";
        catalog_item_id = "shirt";
        variant_id = some "small";
        status = "active";
      }
      ∷ [];
}

abbrev request : ValidationInput
request = record {
  decision_id = "d";
  source_message_reference = "m";
  business_id = "b";
  decision = reply;
  context = some chat;
  evidence = evidence_from_projection stock;
  evidence_item_ids = [];
  evidence_variant_ids = [];
  evidence_offer_ids = [];
}

abbrev answer : EffectiveDecision
answer = record {
  decision_id = "d";
  capability = "respond_without_action";
  policy_decision = "allowed";
  reason = "customer sales policy evaluation completed per contract ⑥ §12";
  authorized_at = some 7;
  executed_at = none;
}

request_validated : validate (production tables policies none 7) request ≡ ok answer
unfolding validate evaluate trim_space validate_selection contains_selection
    evidence_from_projection validate_item_ownership validate_variant_ownership
    validate_offer_ownership
request_validated = refl

validate-Gated_example :
    (has_service (production tables policies none 7).reference_validator ≡ true)
    × (has_service (production tables policies none 7).tenant_validator ≡ true)
    × (has_service (production tables policies none 7).customer_sales_policy ≡ true)
    × Gated 7 reply answer
validate-Gated_example =
    validate-Gated (production tables policies none 7) request answer request_validated

-- A draft of an order that the customer asked for in the message that is answered.
abbrev two_shirts : SalesWorkflowProposal
two_shirts = record {
  workflow_id = "";
  expected_version = pos 0;
  transaction_type = "order";
  lines =
      record {
        item_id = "shirt";
        offer_id = some "shirt_small";
        variant_id = some "small";
        quantity = "2";
        selected_attributes = end;
      }
      ∷ [];
  transaction_data = end;
  evidence_message_ids = "m" ∷ [];
}

abbrev draft : CapabilityDecision
draft = record {
  capability = "create_transaction_draft";
  response_text = "";
  selected = small_shirt ∷ [];
  sales = some two_shirts;
}

abbrev selling : CustomerSalesContext
selling = record chat {
  sales = some (record { enabled = true; allow_interactions = true; active = [] });
}

abbrev drafting : String → Option BusinessRuntimePolicy
drafting business = some (record automatic { allow_auto_transaction_draft = true })

abbrev draft_request : ValidationInput
draft_request = record request { decision = draft; context = some selling }

abbrev draft_answer : EffectiveDecision
draft_answer = record answer { capability = "create_transaction_draft" }

draft_validated : validate (production tables drafting none 7) draft_request ≡ ok draft_answer
unfolding validate evaluate trim_space validate_selection contains_selection
    evidence_from_projection validate_item_ownership validate_variant_ownership
    validate_offer_ownership validate_sales_quantity
draft_validated = refl

validate-Grounded_example :
    Structured draft
    × SalesShown "m" (some two_shirts) (some selling)
    × (allows drafting "create_transaction_draft" (some selling) ≡ true)
    × (draft_answer.capability ≡ "create_transaction_draft")
    × (draft_answer.authorized_at ≡ some 7)
    × All (Grounded tables "b" (evidence_from_projection stock)) (small_shirt ∷ [])
validate-Grounded_example =
    validate-Grounded tables drafting none 7 draft_request draft_answer draft_validated refl
