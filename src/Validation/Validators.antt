-- ===== src/Validation/Validators.antt =====
-- The checks against the database: adapters/secondary/persistence/postgres/catalog_validators.go. The
-- tables are lists of rows, of which each query asks whether there is one; the queries succeed.
use mujeeb24_backend_go.Common.{
  String, ◌==◌, Bool, true, false, ◌&&◌, ◌||◌, not, List, [], ◌∷◌, Option, none, some, Result, ok,
  err, has, if◌then◌else◌,
}
use mujeeb24_backend_go.Common.Text.{trim_space}
use mujeeb24_backend_go.Validation.{SelectedReference}
use mujeeb24_backend_go.Validation.Evidence.{EvidenceSet, contains_selection, text_or_empty}

pub record CatalogRow : Type 0 where
  pub business_id : String
  pub id : String
  pub status : String

pub record ItemRow : Type 0 where
  pub business_id : String
  pub id : String
  pub catalog_id : String
  pub status : String

pub record VariantRow : Type 0 where
  pub business_id : String
  pub id : String
  pub catalog_item_id : String
  pub status : String

pub record OfferRow : Type 0 where
  pub business_id : String
  pub id : String
  pub catalog_item_id : String
  pub variant_id : Option String
  pub status : String

pub record Database : Type 0 where
  pub catalogs : List CatalogRow
  pub items : List ItemRow
  pub variants : List VariantRow
  pub offers : List OfferRow

pub data RepositoryError : Type 0 where
  repository_invalid repository_not_found : RepositoryError

-- SELECT EXISTS
unfoldable pub exists {ℓ} : {A : Type ℓ} → (A → Bool) → List A → Bool
exists p [] = false
exists p (x ∷ xs) = p x || exists p xs

abbrev pub is_blank : String → Bool
is_blank s = trim_space s == ""

abbrev pub in_active_catalog : Database → ItemRow → Bool
in_active_catalog db i =
    exists
      (λ c. (c.business_id == i.business_id) && (c.id == i.catalog_id) && (c.status == "active"))
      db.catalogs

abbrev pub is_variant_of : ItemRow → String → VariantRow → Bool
is_variant_of i variant v =
    (v.business_id == i.business_id)
    && (v.catalog_item_id == i.id)
    && (v.id == variant)
    && (v.status == "active")

abbrev pub is_for_variant : String → Option String → Bool
is_for_variant variant none = true
is_for_variant variant (some v) = (variant == "") || (v == variant)

abbrev pub is_offer_of : ItemRow → String → String → OfferRow → Bool
is_offer_of i variant offer o =
    (o.business_id == i.business_id)
    && (o.catalog_item_id == i.id)
    && (o.id == offer)
    && (o.status == "active")
    && is_for_variant variant o.variant_id

-- The row of catalog_items that the query of ValidateSelection looks for.
abbrev pub is_selected_item : Database → String → String → String → String → ItemRow → Bool
is_selected_item db business item variant offer i =
    (i.business_id == business)
    && (i.id == item)
    && (i.status == "active")
    && in_active_catalog db i
    && ((variant == "") || exists (is_variant_of i variant) db.variants)
    && ((offer == "") || exists (is_offer_of i variant offer) db.offers)

-- `ValidateSelection`
unfoldable pub validate_selection :
    Database → String → SelectedReference → EvidenceSet → Result RepositoryError (Unit {0})
unfolding exists
validate_selection db business selected evidence =
    if is_blank business || is_blank selected.item_id
    then err repository_invalid
    else if not (contains_selection evidence selected)
    then err repository_invalid
    else if exists
        (is_selected_item db business selected.item_id
          (trim_space (text_or_empty selected.variant_id))
          (trim_space (text_or_empty selected.offer_id)))
        db.items
    then ok tt
    else err repository_not_found

-- `containsString`
abbrev pub contains_string : List String → String → Bool
contains_string items target = not (is_blank target) && has target items

abbrev pub active_item : Database → String → String → ItemRow → Bool
active_item db business item i =
    (i.id == item)
    && (i.business_id == business)
    && (i.status == "active")
    && in_active_catalog db i

-- The item of a variant or an offer, with its catalog.
abbrev pub has_active_item : Database → String → String → Bool
has_active_item db business item =
    exists
      (λ i.
        (i.business_id == business)
        && (i.id == item)
        && (i.status == "active")
        && in_active_catalog db i)
      db.items

-- The check of the evidence and then of the database, which the three older checks share.
abbrev pub validate_reference :
    String → String → List String → Bool → Result RepositoryError (Unit {0})
validate_reference business id evidence_ids found =
    if is_blank business || is_blank id
    then err repository_invalid
    else if not (contains_string evidence_ids id)
    then err repository_invalid
    else if found
    then ok tt
    else err repository_not_found

-- `ValidateItemReference`
unfoldable pub validate_item_reference :
    Database → String → String → List String → Result RepositoryError (Unit {0})
unfolding exists
validate_item_reference db business item evidence_ids =
    validate_reference business item evidence_ids (exists (active_item db business item) db.items)

-- `ValidateVariantReference`
unfoldable pub validate_variant_reference :
    Database → String → String → List String → Result RepositoryError (Unit {0})
unfolding exists
validate_variant_reference db business variant evidence_ids =
    validate_reference business variant evidence_ids (
      exists
        (λ v.
          (v.id == variant)
          && (v.business_id == business)
          && (v.status == "active")
          && has_active_item db v.business_id v.catalog_item_id)
        db.variants)

-- `ValidateOfferReference`
unfoldable pub validate_offer_reference :
    Database → String → String → List String → Result RepositoryError (Unit {0})
unfolding exists
validate_offer_reference db business offer evidence_ids =
    validate_reference business offer evidence_ids (
      exists
        (λ o.
          (o.id == offer)
          && (o.business_id == business)
          && (o.status == "active")
          && has_active_item db o.business_id o.catalog_item_id)
        db.offers)

abbrev pub validate_ownership : String → String → Bool → Result RepositoryError (Unit {0})
validate_ownership business id found =
    if is_blank business || is_blank id
    then err repository_invalid
    else if found
    then ok tt
    else err repository_not_found

-- `ValidateItemOwnership`
unfoldable pub validate_item_ownership :
    Database → String → String → Result RepositoryError (Unit {0})
unfolding exists
validate_item_ownership db business item =
    validate_ownership business item
      (exists (λ i. (i.id == item) && (i.business_id == business)) db.items)

-- `ValidateVariantOwnership`
unfoldable pub validate_variant_ownership :
    Database → String → String → Result RepositoryError (Unit {0})
unfolding exists
validate_variant_ownership db business variant =
    validate_ownership business variant
      (exists (λ v. (v.id == variant) && (v.business_id == business)) db.variants)

-- `ValidateOfferOwnership`
unfoldable pub validate_offer_ownership :
    Database → String → String → Result RepositoryError (Unit {0})
unfolding exists
validate_offer_ownership db business offer =
    validate_ownership business offer
      (exists (λ o. (o.id == offer) && (o.business_id == business)) db.offers)
