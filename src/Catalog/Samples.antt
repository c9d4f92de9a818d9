-- ===== src/Catalog/Samples.antt =====
-- Small catalogs for the tests.
use mujeeb24_backend_go.Common.{String, false, List, [], ◌∷◌, Option, none, some}
use mujeeb24_backend_go.Common.Int.{pos}
use mujeeb24_backend_go.Catalog.Projection.{
  end, CatalogAiCatalog, CatalogAiAttributeSchema, CatalogAiVariant, CatalogAiOffer, CatalogAiItem,
  CatalogAiProjection,
}

abbrev pub shop : CatalogAiCatalog
shop = record { id = "shop"; name = "Shop"; description = none; status = "active" }

abbrev pub sizes : CatalogAiAttributeSchema
sizes = record { id = "sizes"; name = "Sizes"; version = pos 2; definitions = [] }

abbrev pub variant_of : String → String → CatalogAiVariant
variant_of item id = record {
  effective_attributes = end;
  resolved_attributes = [];
  offers = [];
  id = id;
  catalog_item_id = item;
  name = id;
  attributes = end;
  status = "active";
}

abbrev pub offer_of : String → Option String → String → CatalogAiOffer
offer_of item variant id = record {
  id = id;
  catalog_item_id = item;
  variant_id = variant;
  name = id;
  pricing_mode = "fixed";
  amount = some "10";
  currency = some "YER";
  pricing_unit = none;
  price_source = none;
  price_verification_status = none;
  price_checked_at = none;
  availability_mode = none;
  availability_status = none;
  availability_source = none;
  availability_checked_at = none;
  availability_valid_until = none;
  availability_evidence_ref = none;
  fulfillment_mode = none;
  validity_from = none;
  validity_until = none;
  status = "active";
}

abbrev pub item_of :
    String → Option String → List CatalogAiVariant → List CatalogAiOffer → CatalogAiItem
item_of id schema vs os = record {
  catalog = none;
  schema = none;
  resolved_attributes = [];
  id = id;
  catalog_id = "shop";
  attribute_schema_id = schema;
  attribute_schema_version = some (pos 2);
  item_type = "product";
  name = id;
  short_description = none;
  long_description = none;
  status = "active";
  pricing_mode = "offer";
  availability_mode = "stock";
  fulfillment_mode = "delivery";
  requires_confirmation = false;
  attributes = end;
  variants = vs;
  offers = os;
  item_level_offers = [];
}

abbrev pub shirt : CatalogAiItem
shirt =
    item_of "shirt" (some "sizes") (variant_of "shirt" "small" ∷ variant_of "shirt" "large" ∷ [])
      (offer_of "shirt" (some "small") "shirt_small" ∷ offer_of "shirt" none "shirt_any" ∷ [])

abbrev pub mug : CatalogAiItem
mug = item_of "mug" none [] (offer_of "mug" none "mug_any" ∷ [])

abbrev pub stock : CatalogAiProjection
stock = record { catalogs = shop ∷ []; attribute_schemas = sizes ∷ []; items = shirt ∷ mug ∷ [] }
