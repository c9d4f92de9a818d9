-- ===== src/Catalog/Coverage/Index.antt =====
-- The index of the source items, and what a check of the items of the batches records.
use mujeeb24_backend_go.Common.{
  String, ◌==◌, ==_iff, ◌≡◌, refl, ◌≢◌, ◌⊎◌, inl, inr, false, none, some, List, [], ◌∷◌, ◌++◌, ok,
  arith, Map, lookup, put, has, All, All-of, In, Distinct, Bool-cases,
}
use mujeeb24_backend_go.Catalog.Projection.{CatalogAiItem}
use mujeeb24_backend_go.Catalog.Coverage.{index_items, validate_catalog_item_relationships}

index_items-cons :
    (x : CatalogAiItem) (xs : List CatalogAiItem) (m r : Map CatalogAiItem)
    → index_items (x ∷ xs) m ≡ ok r
    → (lookup x.id m ≡ none)
      × (validate_catalog_item_relationships x ≡ ok tt)
      × (index_items xs (put x.id x m) ≡ ok r)
unfolding index_items
index_items-cons x xs m r h = ground arith

-- No identifier of an indexed list was in the map before.
index_items-fresh :
    (xs : List CatalogAiItem) (m r : Map CatalogAiItem)
    → index_items xs m ≡ ok r
    → (y : CatalogAiItem) → In y xs
    → lookup y.id m ≡ none
index_items-fresh [] m r h y i = absurd i
index_items-fresh (x ∷ xs) m r h y (inl e) = rw (← e) (index_items-cons x xs m r h).0
index_items-fresh (x ∷ xs) m r h y (inr i) =
    let ih = index_items-fresh xs (put x.id x m) r (index_items-cons x xs m r h).2 y i in
    ground (arith, ih)

put-fresh :
    (x y : CatalogAiItem) (m : Map CatalogAiItem) → lookup y.id (put x.id x m) ≡ none → x.id ≢ y.id
put-fresh x y m h e = ground (arith, h, ==_iff x.id y.id)

-- A list that was indexed has distinct identifiers.
pub index_items-Distinct :
    (xs : List CatalogAiItem) (m r : Map CatalogAiItem)
    → index_items xs m ≡ ok r
    → Distinct (λ x. x.id) xs
index_items-Distinct [] m r h = tt
index_items-Distinct (x ∷ xs) m r h =
    let rest = (index_items-cons x xs m r h).2 in
    (
      All-of (λ y. x.id ≢ y.id) xs
          (λ y i. put-fresh x y m (index_items-fresh xs (put x.id x m) r rest y i)),
      index_items-Distinct xs (put x.id x m) r rest,
    )

-- What is found in the index came from the list, or was there before.
pub index_items_sound :
    (xs : List CatalogAiItem) (m r : Map CatalogAiItem) (k : String) (y : CatalogAiItem)
    → index_items xs m ≡ ok r
    → lookup k r ≡ some y
    → In y xs ⊎ (lookup k m ≡ some y)
unfolding index_items
index_items_sound [] m r k y h l = inr (ground arith)
index_items_sound (x ∷ xs) m r k y h l =
    elim (index_items_sound xs (put x.id x m) r k y (index_items-cons x xs m r h).2 l) [
      | inl i ↦ inl (inr i)
      | inr e ↦ elim (Bool-cases (x.id == k)) [
        | inl q ↦ inl (inl (ground arith))
        | inr q ↦ inr (rw q at e)
      ]
    ]

-- Every item of an indexed list passed the check of its variants and offers.
pub index_items-related :
    (xs : List CatalogAiItem) (m r : Map CatalogAiItem)
    → index_items xs m ≡ ok r
    → All (λ x. validate_catalog_item_relationships x ≡ ok tt) xs
index_items-related [] m r h = tt
index_items-related (x ∷ xs) m r h =
    let c = index_items-cons x xs m r h in (c.1, index_items-related xs (put x.id x m) r c.2)

module _ (items : Map CatalogAiItem) where
  -- The items that were seen one after the other: each is the source's own, and none twice.
  abbrev pub Visited : List CatalogAiItem → List String → List String → Type 0
  Visited [] seen seen' = seen ≡ seen'
  Visited (e ∷ es) seen seen' =
      (lookup e.id items ≡ some e) × (has e.id seen ≡ false) × Visited es (e.id ∷ seen) seen'

  pub Visited-append :
      (es fs : List CatalogAiItem) (s t u : List String)
      → Visited es s t
      → Visited fs t u
      → Visited (es ++ fs) s u
  Visited-append [] fs s t u p q = rw p q
  Visited-append (e ∷ es) fs s t u p q = (p.0, p.1, Visited-append es fs (e.id ∷ s) t u p.2 q)

  Visited-fresh :
      (es : List CatalogAiItem) (s t : List String)
      → Visited es s t
      → (y : CatalogAiItem) → In y es
      → has y.id s ≡ false
  Visited-fresh [] s t v y i = absurd i
  Visited-fresh (e ∷ es) s t v y (inl p) = rw (← p) v.1
  Visited-fresh (e ∷ es) s t v y (inr i) = ground (arith, Visited-fresh es (e.id ∷ s) t v.2 y i)

  pub Visited-Distinct :
      (es : List CatalogAiItem) (s t : List String) → Visited es s t → Distinct (λ x. x.id) es
  Visited-Distinct [] s t v = tt
  Visited-Distinct (e ∷ es) s t v = (
    All-of (λ y. e.id ≢ y.id) es
        (λ y i p. ground (arith, Visited-fresh es (e.id ∷ s) t v.2 y i, ==_iff e.id y.id)),
    Visited-Distinct es (e.id ∷ s) t v.2,
  )

  pub Visited-source :
      (es : List CatalogAiItem) (s t : List String)
      → Visited es s t
      → (y : CatalogAiItem) → In y es
      → lookup y.id items ≡ some y
  Visited-source [] s t v y i = absurd i
  Visited-source (e ∷ es) s t v y (inl p) = rw (← p) v.0
  Visited-source (e ∷ es) s t v y (inr i) = Visited-source es (e.id ∷ s) t v.2 y i

  -- An identifier that is seen at the end was seen before or is that of an item in between.
  pub Visited-seen :
      (es : List CatalogAiItem) (s t : List String) (k : String)
      → Visited es s t
      → In k t
      → In k s ⊎ ((y : CatalogAiItem) × In y es × (y.id ≡ k))
  Visited-seen [] s t k v i = inl (rw v i)
  Visited-seen (e ∷ es) s t k v i = elim (Visited-seen es (e.id ∷ s) t k v.2 i) [
    | inl (inl p) ↦ inr (e, inl refl, p)
    | inl (inr j) ↦ inl j
    | inr (y, j, p) ↦ inr (y, inr j, p)
  ]
