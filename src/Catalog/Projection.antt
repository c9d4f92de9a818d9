-- ===== src/Catalog/Projection.antt =====
-- The read model that is sent to the evaluator: services/catalog_ai_projection.go, and the batch
-- payload of catalog_batch_controller.go. A `*string` is an `Option String`; a `map[string]any` is
-- its list of fields, in the order of the keys; a `json.Number` is its text.
use mujeeb24_backend_go.Common.{ℕ, String, String-discrete, Bool, List, Option}
use mujeeb24_backend_go.Common.Int.{ℤ, ℤ-discrete}

mutual
  -- A decoded JSON value, Go's `any`.
  pub data Value : Type 0 where
    null : Value
    bool : Bool → Value
    number : String → Value
    text : String → Value
    array : Values → Value
    object : Fields → Value

  pub data Values : Type 0 where
    nil : Values
    cons : Value → Values → Values

  pub data Fields : Type 0 where
    end : Fields
    field : String → Value → Fields → Fields

pub record CatalogAiCatalog : Type 0 where
  pub id : String
  pub name : String
  pub description : Option String
  pub status : String

pub record CatalogAiAttributeDefinition : Type 0 where
  pub id : String
  pub schema_id : String
  pub attribute_key : String
  pub label : String
  pub data_type : String
  pub is_required : Bool
  pub validation_rules : Fields
  pub display_order : ℤ

pub record CatalogAiAttributeSchema : Type 0 where
  pub id : String
  pub name : String
  pub version : ℤ
  pub definitions : List CatalogAiAttributeDefinition

pub record CatalogAiResolvedAttribute : Type 0 where
  pub key : String
  pub label : String
  pub data_type : String
  pub origin : String
  pub value : Value

pub record CatalogAiOffer : Type 0 where
  pub id : String
  pub catalog_item_id : String
  pub variant_id : Option String
  pub name : String
  pub pricing_mode : String
  pub amount : Option String
  pub currency : Option String
  pub pricing_unit : Option String
  pub price_source : Option String
  pub price_verification_status : Option String
  pub price_checked_at : Option String
  pub availability_mode : Option String
  pub availability_status : Option String
  pub availability_source : Option String
  pub availability_checked_at : Option String
  pub availability_valid_until : Option String
  pub availability_evidence_ref : Option String
  pub fulfillment_mode : Option String
  pub validity_from : Option String
  pub validity_until : Option String
  pub status : String

pub record CatalogAiVariant : Type 0 where
  pub effective_attributes : Fields
  pub resolved_attributes : List CatalogAiResolvedAttribute
  pub offers : List CatalogAiOffer
  pub id : String
  pub catalog_item_id : String
  pub name : String
  pub attributes : Fields
  pub status : String

pub record CatalogAiItem : Type 0 where
  pub catalog : Option CatalogAiCatalog
  pub schema : Option CatalogAiAttributeSchema
  pub resolved_attributes : List CatalogAiResolvedAttribute
  pub id : String
  pub catalog_id : String
  pub attribute_schema_id : Option String
  pub attribute_schema_version : Option ℤ
  pub item_type : String
  pub name : String
  pub short_description : Option String
  pub long_description : Option String
  pub status : String
  pub pricing_mode : String
  pub availability_mode : String
  pub fulfillment_mode : String
  pub requires_confirmation : Bool
  pub attributes : Fields
  pub variants : List CatalogAiVariant
  pub offers : List CatalogAiOffer
  pub item_level_offers : List CatalogAiOffer

pub record CatalogAiProjection : Type 0 where
  pub catalogs : List CatalogAiCatalog
  pub attribute_schemas : List CatalogAiAttributeSchema
  pub items : List CatalogAiItem

pub record CatalogAiBatchPayload : Type 0 where
  pub batch_number : ℕ
  pub catalogs : List CatalogAiCatalog
  pub attribute_schemas : List CatalogAiAttributeSchema
  pub items : List CatalogAiItem

unfoldable pub CatalogAiCatalog-discrete : Discrete CatalogAiCatalog
unfolding String-discrete
CatalogAiCatalog-discrete = hlevel String-discrete

unfoldable pub Fields-discrete : Discrete Fields
unfolding String-discrete
Fields-discrete = hlevel String-discrete

unfoldable pub Value-discrete : Discrete Value
unfolding String-discrete
Value-discrete = hlevel String-discrete

unfoldable pub CatalogAiAttributeSchema-discrete : Discrete CatalogAiAttributeSchema
unfolding String-discrete ℤ-discrete Fields-discrete
CatalogAiAttributeSchema-discrete = hlevel (String-discrete, ℤ-discrete, Fields-discrete)

unfoldable pub CatalogAiOffer-discrete : Discrete CatalogAiOffer
unfolding String-discrete
CatalogAiOffer-discrete = hlevel String-discrete

unfoldable pub CatalogAiResolvedAttribute-discrete : Discrete CatalogAiResolvedAttribute
unfolding String-discrete Value-discrete
CatalogAiResolvedAttribute-discrete = hlevel (String-discrete, Value-discrete)

unfoldable pub CatalogAiVariant-discrete : Discrete CatalogAiVariant
unfolding Fields-discrete CatalogAiResolvedAttribute-discrete CatalogAiOffer-discrete
    String-discrete
CatalogAiVariant-discrete =
    hlevel (
      String-discrete, Fields-discrete, CatalogAiResolvedAttribute-discrete,
      CatalogAiOffer-discrete,
    )

unfoldable pub CatalogAiItem-discrete : Discrete CatalogAiItem
unfolding CatalogAiCatalog-discrete CatalogAiAttributeSchema-discrete CatalogAiVariant-discrete
CatalogAiItem-discrete = hlevel (
  String-discrete, ℤ-discrete, Fields-discrete, CatalogAiCatalog-discrete,
  CatalogAiAttributeSchema-discrete, CatalogAiResolvedAttribute-discrete, CatalogAiOffer-discrete,
  CatalogAiVariant-discrete,
)
