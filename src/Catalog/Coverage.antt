-- ===== src/Catalog/Coverage.antt =====
-- The coverage check of services/catalog_batch_coverage.go: every item of the source is carried by
-- exactly one batch, unchanged, with its catalog and its schema.
pub mod Index
pub mod Exact
use mujeeb24_backend_go.Common.{
  ℕ, String, ◌==◌, Bool, true, false, ◌&&◌, not, List, [], ◌∷◌, Option, none, some, Result, ok, err,
  ◌>>=◌, ◌>>◌, Map, lookup, lookup_or, put, contains, has, same, if◌then◌else◌,
}
use mujeeb24_backend_go.Common.Int.{ℤ, pos, ℤ-discrete}
use mujeeb24_backend_go.Catalog.Projection.{
  CatalogAiCatalog, CatalogAiAttributeSchema, CatalogAiVariant, CatalogAiOffer, CatalogAiItem,
  CatalogAiProjection, CatalogAiBatchPayload, CatalogAiCatalog-discrete,
  CatalogAiAttributeSchema-discrete, CatalogAiItem-discrete,
}

-- One constructor for each message; the numbers are batch numbers, the texts identifiers.
pub data CoverageError : Type 0 where
  duplicate_source_catalog duplicate_source_schema duplicate_source_item : String → CoverageError
  foreign_variant duplicate_variant foreign_offer duplicate_offer : String → String → CoverageError
  unavailable_variant : String → String → String → CoverageError
  batch_duplicated_catalog batch_duplicated_schema unknown_item : ℕ → String → CoverageError
  duplicated_item : String → CoverageError
  changed_item : ℕ → String → CoverageError
  source_lacks_catalog source_lacks_schema : String → String → CoverageError
  batch_lost_catalog batch_lost_schema : ℕ → String → String → CoverageError
  schema_version_mismatch uncovered_item : String → CoverageError

-- The loops that index a list by identifier and refuse a second use of one.
pub index_by {ℓ} :
    {A : Type ℓ}
    → (A → String)
    → (String → CoverageError)
    → List A
    → Map A
    → Result CoverageError (Map A)
index_by id duplicate [] m = ok m
index_by id duplicate (x ∷ xs) m =
    if contains (id x) m then err (duplicate (id x)) else index_by id duplicate xs (put (id x) x m)

pub check_variants :
    String → List CatalogAiVariant → List String → Result CoverageError (List String)
check_variants item_id [] seen = ok seen
check_variants item_id (v ∷ vs) seen =
    if not (v.catalog_item_id == item_id)
    then err (foreign_variant v.id item_id)
    else if has v.id seen
    then err (duplicate_variant v.id item_id)
    else check_variants item_id vs (v.id ∷ seen)

-- `offer.VariantID != nil && *offer.VariantID != "" && !variants[*offer.VariantID]`
abbrev pub lacks_variant : Option String → List String → Bool
lacks_variant none variants = false
lacks_variant (some v) variants = not (v == "") && not (has v variants)

abbrev pub named : Option String → String
named none = ""
named (some v) = v

pub check_offers :
    String → List String → List CatalogAiOffer → List String → Result CoverageError (List String)
check_offers item_id variants [] seen = ok seen
check_offers item_id variants (o ∷ os) seen =
    if not (o.catalog_item_id == item_id)
    then err (foreign_offer o.id item_id)
    else if has o.id seen
    then err (duplicate_offer o.id item_id)
    else if lacks_variant o.variant_id variants
    then err (unavailable_variant o.id (named o.variant_id) item_id)
    else check_offers item_id variants os (o.id ∷ seen)

unfoldable pub validate_catalog_item_relationships : CatalogAiItem → Result CoverageError (Unit {0})
validate_catalog_item_relationships item = do
  variants ← check_variants item.id item.variants []
  offers ← check_offers item.id variants item.offers []
  ok tt

pub index_items : List CatalogAiItem → Map CatalogAiItem → Result CoverageError (Map CatalogAiItem)
index_items [] m = ok m
index_items (x ∷ xs) m =
    if contains x.id m
    then err (duplicate_source_item x.id)
    else (validate_catalog_item_relationships x >> index_items xs (put x.id x m))

abbrev pub zero_catalog : CatalogAiCatalog
zero_catalog = record { id = ""; name = ""; description = none; status = "" }

abbrev pub zero_schema : CatalogAiAttributeSchema
zero_schema = record { id = ""; name = ""; version = pos 0; definitions = [] }

-- What the loop over the batches reads: the three indexes of the source, and those of the batch.
pub record Indexes : Type 0 where
  pub catalogs : Map CatalogAiCatalog
  pub schemas : Map CatalogAiAttributeSchema
  pub items : Map CatalogAiItem

pub record BatchIndexes : Type 0 where
  pub number : ℕ
  pub catalogs : Map CatalogAiCatalog
  pub schemas : Map CatalogAiAttributeSchema

abbrev pub is_empty {ℓ} : {A : Type ℓ} → List A → Bool
is_empty [] = true
is_empty (x ∷ xs) = false

pub check_catalog : Bool → Indexes → BatchIndexes → CatalogAiItem → Result CoverageError (Unit {0})
check_catalog no_catalogs source batch entity =
    if no_catalogs then ok tt else elim (lookup entity.catalog_id source.catalogs) [
      | none ↦ err (source_lacks_catalog entity.catalog_id entity.id)
      | some catalog ↦
          if same CatalogAiCatalog-discrete
            (lookup_or zero_catalog entity.catalog_id batch.catalogs) catalog
          then ok tt
          else err (batch_lost_catalog batch.number entity.catalog_id entity.id)
    ]

abbrev pub version_is : Option ℤ → ℤ → Bool
version_is none v = false
version_is (some w) v = same ℤ-discrete w v

pub check_schema_id :
    String → Indexes → BatchIndexes → CatalogAiItem → Result CoverageError (Unit {0})
check_schema_id id source batch entity =
    if id == "" then ok tt else elim (lookup id source.schemas) [
      | none ↦ err (source_lacks_schema id entity.id)
      | some schema ↦
          if version_is entity.attribute_schema_version schema.version
          then (if same CatalogAiAttributeSchema-discrete
                (lookup_or zero_schema schema.id batch.schemas) schema
              then ok tt
              else err (batch_lost_schema batch.number schema.id entity.id))
          else err (schema_version_mismatch entity.id)
    ]

abbrev pub check_schema :
    Option String → Indexes → BatchIndexes → CatalogAiItem → Result CoverageError (Unit {0})
check_schema none source batch entity = ok tt
check_schema (some id) source batch entity = check_schema_id id source batch entity

-- The body of the loop over the items of a batch. It returns the new `seen`.
pub check_entity :
    Bool → Indexes → BatchIndexes → CatalogAiItem → List String → Result CoverageError (List String)
check_entity no_catalogs source batch entity seen = elim (lookup entity.id source.items) [
  | none ↦ err (unknown_item batch.number entity.id)
  | some original ↦
      if has entity.id seen
      then err (duplicated_item entity.id)
      else if not (same CatalogAiItem-discrete original entity)
      then err (changed_item batch.number entity.id)
      else (check_catalog no_catalogs source batch entity
          >> (check_schema entity.attribute_schema_id source batch entity >> ok (entity.id ∷ seen)))
]

pub check_entities :
    Bool
    → Indexes
    → BatchIndexes
    → List CatalogAiItem
    → List String
    → Result CoverageError (List String)
check_entities no_catalogs source batch [] seen = ok seen
check_entities no_catalogs source batch (e ∷ es) seen =
    check_entity no_catalogs source batch e seen >>= λ seen'.
    check_entities no_catalogs source batch es seen'

pub check_batch :
    Bool → Indexes → CatalogAiBatchPayload → List String → Result CoverageError (List String)
check_batch no_catalogs source batch seen = do
  let n = batch.batch_number
  catalogs ← index_by (λ c. c.id) (batch_duplicated_catalog n) batch.catalogs []
  schemas ← index_by (λ s. s.id) (batch_duplicated_schema n) batch.attribute_schemas []
  check_entities no_catalogs source (record { number = n; catalogs = catalogs; schemas = schemas })
      batch.items seen

pub check_batches :
    Bool → Indexes → List CatalogAiBatchPayload → List String → Result CoverageError (List String)
check_batches no_catalogs source [] seen = ok seen
check_batches no_catalogs source (b ∷ bs) seen =
    check_batch no_catalogs source b seen >>= λ seen'. check_batches no_catalogs source bs seen'

pub check_covered : List CatalogAiItem → List String → Result CoverageError (Unit {0})
check_covered [] seen = ok tt
check_covered (x ∷ xs) seen =
    if has x.id seen then check_covered xs seen else err (uncovered_item x.id)

unfoldable pub validate_catalog_batch_coverage :
    CatalogAiProjection → List CatalogAiBatchPayload → Result CoverageError (Unit {0})
validate_catalog_batch_coverage source batches = do
  catalogs ← index_by (λ c. c.id) duplicate_source_catalog source.catalogs []
  schemas ← index_by (λ s. s.id) duplicate_source_schema source.attribute_schemas []
  items ← index_items source.items []
  seen ←
      check_batches (is_empty source.catalogs)
        (record { catalogs = catalogs; schemas = schemas; items = items }) batches []
  check_covered source.items seen

-- What a run of the check unfolds.
unfoldable pub coverage_code : Unit {0}
unfolding validate_catalog_batch_coverage index_by check_variants check_offers
    validate_catalog_item_relationships index_items check_catalog check_schema_id check_entity
    check_entities check_batch check_batches check_covered CatalogAiItem-discrete
    CatalogAiCatalog-discrete CatalogAiAttributeSchema-discrete
coverage_code = tt
