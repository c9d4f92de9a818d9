-- ===== src/Validation/Evidence.antt =====
-- The evidence that a model was shown: ports/catalog_ai_read.go and EvidenceFromProjection of
-- services/catalog_ai_runtime.go. A missing map is an empty one.
pub mod Sound
use mujeeb24_backend_go.Common.{
  String, ◌==◌, Bool, true, false, ◌&&◌, ◌||◌, not, List, [], ◌∷◌, Option, none, some, Map, lookup,
  assign, has, if◌then◌else◌,
}
use mujeeb24_backend_go.Catalog.Projection.{
  CatalogAiVariant, CatalogAiOffer, CatalogAiItem, CatalogAiProjection,
}
use mujeeb24_backend_go.Validation.{SelectedReference}

pub record EvidenceOffer : Type 0 where
  pub variant_id : String

pub record EvidenceItem : Type 0 where
  pub variants : List String
  pub offers : Map EvidenceOffer

pub record EvidenceSet : Type 0 where
  pub items : Map EvidenceItem

abbrev pub no_evidence : EvidenceItem
no_evidence = record { variants = []; offers = [] }

-- `NewCatalogAIEvidenceSet`
abbrev pub new_evidence_set : EvidenceSet
new_evidence_set = record { items = [] }

-- `*p`, or the empty text for a missing one
abbrev pub text_or_empty : Option String → String
text_or_empty none = ""
text_or_empty (some s) = s

-- A variant that is selected is in the evidence of the item.
abbrev pub contains_variant : String → EvidenceItem → Bool
contains_variant selected item = (selected == "") || has selected item.variants

abbrev pub fits_variant : String → EvidenceOffer → Bool
fits_variant selected offer =
    (selected == "") || ((offer.variant_id == "") || (offer.variant_id == selected))

abbrev pub offered : String → Option EvidenceOffer → Bool
offered selected none = false
offered selected (some offer) = fits_variant selected offer

abbrev pub contains_offer : String → String → EvidenceItem → Bool
contains_offer selected offer item = (offer == "") || offered selected (lookup offer item.offers)

abbrev pub item_contains : SelectedReference → Option EvidenceItem → Bool
item_contains ref none = false
item_contains ref (some item) =
    contains_variant (text_or_empty ref.variant_id) item
    && contains_offer (text_or_empty ref.variant_id) (text_or_empty ref.offer_id) item

unfoldable pub contains_selection : EvidenceSet → SelectedReference → Bool
contains_selection e ref = item_contains ref (lookup ref.item_id e.items)

pub variant_ids : List CatalogAiVariant → List String
variant_ids [] = []
variant_ids (v ∷ variants) = v.id ∷ variant_ids variants

pub evidence_offers : List CatalogAiOffer → Map EvidenceOffer → Map EvidenceOffer
evidence_offers [] written = written
evidence_offers (o ∷ offers) written =
    evidence_offers offers
      (assign o.id (record { variant_id = text_or_empty o.variant_id }) written)

abbrev pub entry_of : CatalogAiItem → EvidenceItem
entry_of item = record {
  variants = variant_ids item.variants;
  offers = evidence_offers item.offers [];
}

pub evidence_items : List CatalogAiItem → Map EvidenceItem → Map EvidenceItem
evidence_items [] written = written
evidence_items (item ∷ items) written =
    evidence_items items (assign item.id (entry_of item) written)

unfoldable pub evidence_from_projection : CatalogAiProjection → EvidenceSet
unfolding evidence_items evidence_offers variant_ids
evidence_from_projection p = record { items = evidence_items p.items [] }

-- The rows of a bundle that AddBundle reads.
pub record BundleVariant : Type 0 where
  pub id : String
  pub catalog_item_id : String

pub record BundleOffer : Type 0 where
  pub id : String
  pub catalog_item_id : String
  pub variant_id : Option String

pub record Bundle : Type 0 where
  pub item_id : String
  pub variants : List BundleVariant
  pub offers : List BundleOffer

abbrev pub evidence_or_none : Option EvidenceItem → EvidenceItem
evidence_or_none none = no_evidence
evidence_or_none (some item) = item

pub add_variants : String → List BundleVariant → List String → List String
add_variants item_id [] written = written
add_variants item_id (v ∷ variants) written =
    add_variants item_id variants (if v.catalog_item_id == item_id then v.id ∷ written else written)

pub add_offers : String → List BundleOffer → Map EvidenceOffer → Map EvidenceOffer
add_offers item_id [] written = written
add_offers item_id (o ∷ offers) written = add_offers item_id offers (
    if o.catalog_item_id == item_id
    then assign o.id (record { variant_id = text_or_empty o.variant_id }) written
    else written)

unfoldable pub add_bundle : EvidenceSet → Bundle → EvidenceSet
unfolding add_variants add_offers
add_bundle e b =
    let item = evidence_or_none (lookup b.item_id e.items) in
    record {
      items =
          assign b.item_id
            (record {
              variants = add_variants b.item_id b.variants item.variants;
              offers = add_offers b.item_id b.offers item.offers;
            })
            e.items;
    }

pub merge_variants : List String → List String → List String
merge_variants [] written = written
merge_variants (v ∷ variants) written = merge_variants variants (v ∷ written)

pub merge_offers : Map EvidenceOffer → Map EvidenceOffer → Map EvidenceOffer
merge_offers [] written = written
merge_offers ((id, offer) ∷ offers) written = merge_offers offers (assign id offer written)

abbrev pub merge_item : EvidenceItem → EvidenceItem → EvidenceItem
merge_item other item = record {
  variants = merge_variants other.variants item.variants;
  offers = merge_offers other.offers item.offers;
}

pub merge_items : Map EvidenceItem → Map EvidenceItem → Map EvidenceItem
merge_items [] written = written
merge_items ((id, other) ∷ others) written =
    merge_items others (assign id (merge_item other (evidence_or_none (lookup id written))) written)

unfoldable pub merge : EvidenceSet → EvidenceSet → EvidenceSet
unfolding merge_items merge_offers merge_variants
merge e other = record { items = merge_items other.items e.items }
