-- ===== src/Catalog/Coverage/Exact.antt =====
-- What a batch list that passes the check of catalog_batch_coverage.go carries.
use mathlib.Core.List.{Perm}
use mathlib.Core.Path.{subst}
use mujeeb24_backend_go.Common.{
  has-In, String, same_iff, ◌≡◌, inl, inr, Bool, true, false, some, List, [], ◌∷◌, ◌++◌, ok, arith,
  Map, lookup, has, In, Option-cases, >>=-eq-ok, Perm_of_Distinct, Distinct-injective,
}
use mujeeb24_backend_go.Catalog.Projection.{
  CatalogAiItem, CatalogAiItem-discrete, CatalogAiBatchPayload, CatalogAiProjection,
}
use mujeeb24_backend_go.Catalog.Coverage.{
  Indexes, BatchIndexes, duplicate_source_catalog, duplicate_source_schema, index_by, index_items,
  check_entity, check_entities, check_catalog, check_schema, check_batch, check_batches,
  check_covered, validate_catalog_batch_coverage, is_empty,
}
use mujeeb24_backend_go.Catalog.Coverage.Index.{
  index_items-Distinct, index_items_sound, Visited, Visited-append, Visited-Distinct,
  Visited-source, Visited-seen,
}

-- The items of a list of batches, in order.
abbrev pub carried : List CatalogAiBatchPayload → List CatalogAiItem
carried [] = []
carried (b ∷ bs) = b.items ++ carried bs

module _ (no_catalogs : Bool) (source : Indexes) where
  check_entity-Visited :
      (batch : BatchIndexes) (e : CatalogAiItem) (seen seen' : List String)
      → check_entity no_catalogs source batch e seen ≡ ok seen'
      → (lookup e.id source.items ≡ some e)
        × (has e.id seen ≡ false)
        × (check_catalog no_catalogs source batch e ≡ ok tt)
        × (check_schema e.attribute_schema_id source batch e ≡ ok tt)
        × (seen' ≡ e.id ∷ seen)
  unfolding check_entity
  check_entity-Visited batch e seen seen' h = elim (Option-cases (lookup e.id source.items)) [
    | inl absent ↦ ground arith
    | inr (original, found) ↦ ground (arith, same_iff CatalogAiItem-discrete original e)
  ]

  pub check_entities-Visited :
      (batch : BatchIndexes) (es : List CatalogAiItem) (s t : List String)
      → check_entities no_catalogs source batch es s ≡ ok t
      → Visited source.items es s t
  unfolding check_entities
  check_entities-Visited batch [] s t h = ground arith
  check_entities-Visited batch (e ∷ es) s t h =
      let (s', p, q) = >>=-eq-ok (check_entity no_catalogs source batch e s) _ h in
      let v = check_entity-Visited batch e s s' p in
      (v.0, v.1, check_entities-Visited batch es (e.id ∷ s) t (rw v.4 at q))

  pub check_batches-Visited :
      (bs : List CatalogAiBatchPayload) (s t : List String)
      → check_batches no_catalogs source bs s ≡ ok t
      → Visited source.items (carried bs) s t
  unfolding check_batches check_batch
  check_batches-Visited [] s t h = ground arith
  check_batches-Visited (b ∷ bs) s t h =
      let (s', p, q) = >>=-eq-ok (check_batch no_catalogs source b s) _ h in
      let (cs, _, p₁) = >>=-eq-ok (index_by (λ c. c.id) _ b.catalogs []) _ p in
      let (ss, _, p₂) = >>=-eq-ok (index_by (λ c. c.id) _ b.attribute_schemas []) _ p₁ in
      Visited-append source.items b.items (carried bs) s s' t
        (check_entities-Visited _ b.items s s' p₂) (check_batches-Visited bs s' t q)

check_covered-has :
    (xs : List CatalogAiItem) (seen : List String)
    → check_covered xs seen ≡ ok tt
    → (x : CatalogAiItem) → In x xs
    → has x.id seen ≡ true
unfolding check_covered
check_covered-has [] seen h x i = absurd i
check_covered-has (y ∷ ys) seen h x (inl e) = rw (← e) (ground arith)
check_covered-has (y ∷ ys) seen h x (inr i) = check_covered-has ys seen (ground arith) x i

module _ (source : List CatalogAiItem) (is : Map CatalogAiItem)
    (q : index_items source [] ≡ ok is) where
  source_of_lookup : (x : CatalogAiItem) → lookup x.id is ≡ some x → In x source
  source_of_lookup x l = elim (index_items_sound source [] is x.id x q l) [ inl i ↦ i | inr e ↦ cc ]

  module _ (es : List CatalogAiItem) (seen : List String) (v : Visited is es [] seen) where
    carried-source : (x : CatalogAiItem) → In x es → In x source
    carried-source x i = source_of_lookup x (Visited-source is es [] seen v x i)

    source-carried : check_covered source seen ≡ ok tt → (x : CatalogAiItem) → In x source → In x es
    source-carried r x i =
        elim (Visited-seen is es [] seen x.id v
          (has-In x.id seen (check_covered-has source seen r x i))) [
            | inl none_before ↦ absurd none_before
            | inr (y, j, e) ↦
                subst (λ z. In z es)
                  (Distinct-injective (λ z. z.id) y x source (index_items-Distinct source [] is q)
                    (carried-source y j) i e)
                  j
          ]

    Visited-perm : check_covered source seen ≡ ok tt → Perm es source
    Visited-perm r =
        Perm_of_Distinct (λ x. x.id) es source (Visited-Distinct is es [] seen v)
          (index_items-Distinct source [] is q) carried-source (source-carried r)

-- The parts of a check that passed.
pub record Passed (source : CatalogAiProjection) (batches : List CatalogAiBatchPayload)
    : Type 0 where
  pub indexes : Indexes
  pub seen : List String
  pub catalogs_indexed :
      index_by (λ c. c.id) duplicate_source_catalog source.catalogs [] ≡ ok indexes.catalogs
  pub schemas_indexed :
      index_by (λ s. s.id) duplicate_source_schema source.attribute_schemas [] ≡ ok indexes.schemas
  pub items_indexed : index_items source.items [] ≡ ok indexes.items
  pub batches_checked : check_batches (is_empty source.catalogs) indexes batches [] ≡ ok seen
  pub covered : check_covered source.items seen ≡ ok tt

pub validated :
    (source : CatalogAiProjection) (batches : List CatalogAiBatchPayload)
    → validate_catalog_batch_coverage source batches ≡ ok tt
    → Passed source batches
unfolding validate_catalog_batch_coverage
validated source batches h =
    let (cs, p₁, h₁) =
      >>=-eq-ok (index_by (λ c. c.id) duplicate_source_catalog source.catalogs []) _ h in
    let (ss, p₂, h₂) =
      >>=-eq-ok (index_by (λ s. s.id) duplicate_source_schema source.attribute_schemas []) _ h₁ in
    let (is, p₃, h₃) = >>=-eq-ok (index_items source.items []) _ h₂ in
    let (seen, p₄, h₄) = >>=-eq-ok (check_batches (is_empty source.catalogs) _ batches []) _ h₃ in
    record {
      indexes = record { catalogs = cs; schemas = ss; items = is };
      seen = seen;
      catalogs_indexed = p₁;
      schemas_indexed = p₂;
      items_indexed = p₃;
      batches_checked = p₄;
      covered = h₄;
    }

-- Batches that pass the check carry exactly the items of the source: the concatenation of their
-- items is a permutation of the source's items, so each item is carried once, unchanged, and
-- nothing else is carried.
pub validate_catalog_batch_coverage-perm :
    (source : CatalogAiProjection) (batches : List CatalogAiBatchPayload)
    → validate_catalog_batch_coverage source batches ≡ ok tt
    → Perm (carried batches) source.items
validate_catalog_batch_coverage-perm source batches h =
    let p = validated source batches h in
    Visited-perm source.items p.indexes.items p.items_indexed (carried batches) p.seen
      (check_batches-Visited (is_empty source.catalogs) p.indexes batches [] p.seen
        p.batches_checked)
      p.covered
