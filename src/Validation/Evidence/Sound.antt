-- ===== src/Validation/Evidence/Sound.antt =====
-- A selection that the evidence contains was shown to the model.
use mujeeb24_backend_go.Common.{
  String, ◌==◌, ==_iff, ◌≡◌, refl, sym, ap, subst, ◌∙◌, Bool, true, false, ◌&&◌, ◌||◌, List, [],
  ◌∷◌, Option, none, some, Map, lookup, assign, lookup-assign, has-In, In, if◌then◌else◌,
  Bool-cases, ◌⊎◌, inl, inr,
}
use mujeeb24_backend_go.Catalog.Projection.{
  CatalogAiVariant, CatalogAiOffer, CatalogAiItem, CatalogAiProjection,
}
use mujeeb24_backend_go.Validation.{SelectedReference}
use mujeeb24_backend_go.Validation.Evidence.{
  EvidenceOffer, EvidenceItem, fits_variant, offered, contains_offer, contains_selection,
  item_contains, variant_ids, evidence_offers, entry_of, evidence_items, evidence_from_projection,
  text_or_empty,
}

pub &&-both : (a b : Bool) → (a && b) ≡ true → (a ≡ true) × (b ≡ true)
&&-both true b h = (refl, h)
&&-both false b h = cc

pub ||-either : (a b : Bool) → (a || b) ≡ true → (a ≡ true) ⊎ (b ≡ true)
||-either true b h = inl refl
||-either false b h = inr h

-- The variant was shown with the item.
abbrev pub ShownVariant : String → CatalogAiItem → Type 0
ShownVariant selected item =
    (selected ≡ "") ⊎ ((v : CatalogAiVariant) × In v item.variants × (v.id ≡ selected))

-- The offer was shown with the item, and is for every variant or for the one that is selected.
abbrev pub ShownOffer : String → String → CatalogAiItem → Type 0
ShownOffer selected offer item =
    (offer ≡ "")
    ⊎ ((o : CatalogAiOffer) × In o item.offers
        × (o.id ≡ offer)
        × ((selected ≡ "")
            ⊎ ((text_or_empty o.variant_id ≡ "") ⊎ (text_or_empty o.variant_id ≡ selected))))

abbrev pub Shown : SelectedReference → CatalogAiItem → Type 0
Shown ref item =
    (item.id ≡ ref.item_id)
    × ShownVariant (text_or_empty ref.variant_id) item
    × ShownOffer (text_or_empty ref.variant_id) (text_or_empty ref.offer_id) item

some_injective {ℓ} : {A : Type ℓ} (a b : A) → ◌≡◌ {A = Option A} (some a) (some b) → a ≡ b
some_injective a b e = cc

found_item :
    (k : String) (items : List CatalogAiItem) (written : Map EvidenceItem) (e : EvidenceItem)
    → lookup k (evidence_items items written) ≡ some e
    → ((item : CatalogAiItem) × In item items × (item.id ≡ k) × (entry_of item ≡ e))
      ⊎ (lookup k written ≡ some e)
unfolding evidence_items
found_item k [] written e h = inr h
found_item k (item ∷ items) written e h =
    elim (found_item k items (assign item.id (entry_of item) written) e h) [
      | inl (i, m, p, q) ↦ inl (i, inr m, p, q)
      | inr old ↦
          let w : (if item.id == k then some (entry_of item) else lookup k written) ≡ some e =
            sym (lookup-assign k item.id (entry_of item) written) ∙ old in
          elim (Bool-cases (item.id == k)) [
            | inl t ↦ inl (
              item,
              inl refl,
              (==_iff item.id k).0 t,
              some_injective (entry_of item) e (rw t at w),
            )
            | inr f ↦ inr (rw f at w)
          ]
    ]

found_offer :
    (k : String) (offers : List CatalogAiOffer) (written : Map EvidenceOffer) (e : EvidenceOffer)
    → lookup k (evidence_offers offers written) ≡ some e
    → ((o : CatalogAiOffer) × In o offers
        × (o.id ≡ k)
        × (text_or_empty o.variant_id ≡ e.variant_id))
      ⊎ (lookup k written ≡ some e)
unfolding evidence_offers
found_offer k [] written e h = inr h
found_offer k (o ∷ offers) written e h =
    elim (found_offer k offers
      (assign o.id (record { variant_id = text_or_empty o.variant_id }) written) e h) [
        | inl (i, m, p, q) ↦ inl (i, inr m, p, q)
        | inr old ↦
            let w : (if o.id == k
                  then some (record { variant_id = text_or_empty o.variant_id })
                  else lookup k written)
                ≡ some e =
              sym
                (lookup-assign k o.id (record { variant_id = text_or_empty o.variant_id }) written)
              ∙ old in
            elim (Bool-cases (o.id == k)) [
              | inl t ↦ inl (
                o,
                inl refl,
                (==_iff o.id k).0 t,
                ap (λ (x : EvidenceOffer). x.variant_id)
                    (some_injective (record { variant_id = text_or_empty o.variant_id }) e
                      (rw t at w)),
              )
              | inr f ↦ inr (rw f at w)
            ]
      ]

In-variant_ids :
    (k : String) (variants : List CatalogAiVariant)
    → In k (variant_ids variants)
    → (v : CatalogAiVariant) × In v variants × (v.id ≡ k)
unfolding variant_ids
In-variant_ids k [] h = absurd h
In-variant_ids k (v ∷ variants) (inl e) = (v, inl refl, e)
In-variant_ids k (v ∷ variants) (inr m) =
    let (w, n, e) = In-variant_ids k variants m in (w, inr n, e)

fits_variant-either :
    (selected : String) (offer : EvidenceOffer)
    → fits_variant selected offer ≡ true
    → (selected ≡ "") ⊎ ((offer.variant_id ≡ "") ⊎ (offer.variant_id ≡ selected))
fits_variant-either selected offer h = elim (||-either _ _ h) [
  | inl e ↦ inl ((==_iff selected "").0 e)
  | inr r ↦ elim (||-either _ _ r) [
    | inl e ↦ inr (inl ((==_iff offer.variant_id "").0 e))
    | inr e ↦ inr (inr ((==_iff offer.variant_id selected).0 e))
  ]
]

contains_offer-Shown :
    (selected offer : String) (item : CatalogAiItem)
    → contains_offer selected offer (entry_of item) ≡ true
    → ShownOffer selected offer item
contains_offer-Shown selected offer item h = elim (||-either _ _ h) [
  | inl e ↦ inl ((==_iff offer "").0 e)
  | inr r ↦ inr (by_entry (lookup offer (evidence_offers item.offers [])) refl r)
]
  where
    by_entry :
        (o : Option EvidenceOffer)
        → lookup offer (evidence_offers item.offers []) ≡ o
        → offered selected o ≡ true
        → (x : CatalogAiOffer) × In x item.offers
          × (x.id ≡ offer)
          × ((selected ≡ "")
              ⊎ ((text_or_empty x.variant_id ≡ "") ⊎ (text_or_empty x.variant_id ≡ selected)))
    by_entry none found ok_offer = cc
    by_entry (some e) found ok_offer = elim (found_offer offer item.offers [] e found) [
      | inl (x, m, p, q) ↦ (
        x,
        m,
        p,
        subst (λ (v : String). (selected ≡ "") ⊎ ((v ≡ "") ⊎ (v ≡ selected))) (sym q)
            (fits_variant-either selected e ok_offer),
      )
      | inr old ↦ absurd (none_some old)
    ]
      where
        none_some : ◌≡◌ {A = Option EvidenceOffer} none (some e) → ⊥
        none_some p = cc

item_contains-Shown :
    (ref : SelectedReference) (item : CatalogAiItem)
    → item.id ≡ ref.item_id
    → item_contains ref (some (entry_of item)) ≡ true
    → Shown ref item
item_contains-Shown ref item same h =
    let both = &&-both _ _ h in
    (
      same,
      elim (||-either _ _ both.0) [
        | inl e ↦ inl ((==_iff (text_or_empty ref.variant_id) "").0 e)
        | inr m ↦ inr (
            In-variant_ids (text_or_empty ref.variant_id) item.variants
              (has-In (text_or_empty ref.variant_id) (variant_ids item.variants) m))
      ],
      contains_offer-Shown (text_or_empty ref.variant_id) (text_or_empty ref.offer_id) item both.1,
    )

-- A selection that the evidence of a projection contains names an item of the projection; its variant,
-- if one is selected, was shown with that item, and so was its offer, which is for the selected
-- variant or for no variant in particular.
pub contains_selection-Shown :
    (p : CatalogAiProjection) (ref : SelectedReference)
    → contains_selection (evidence_from_projection p) ref ≡ true
    → (item : CatalogAiItem) × In item p.items × Shown ref item
unfolding contains_selection evidence_from_projection
contains_selection-Shown p ref h = by_entry (lookup ref.item_id (evidence_items p.items [])) refl h
  where
    by_entry :
        (o : Option EvidenceItem)
        → lookup ref.item_id (evidence_items p.items []) ≡ o
        → item_contains ref o ≡ true
        → (item : CatalogAiItem) × In item p.items × Shown ref item
    by_entry none found contained = cc
    by_entry (some e) found contained = elim (found_item ref.item_id p.items [] e found) [
      | inl (item, m, same, q) ↦ (
        item,
        m,
        item_contains-Shown ref item same
            (subst (λ (x : EvidenceItem). item_contains ref (some x) ≡ true) (sym q) contained),
      )
      | inr old ↦ absurd (none_some old)
    ]
      where
        none_some : ◌≡◌ {A = Option EvidenceItem} none (some e) → ⊥
        none_some p = cc
