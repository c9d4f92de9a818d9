-- ===== src/Validation/Pipeline/Grounded.antt =====
-- What is executed without a human, with the services that production wires: the validators of
-- postgres, the merchant's policy, and any authorization service (bootstrap/api.go has none).
use mujeeb24_backend_go.Common.{
  ℕ, suc, String, ◌==◌, ==_iff, ◌≡◌, refl, sym, ◌∙◌, subst, Bool, true, false, ◌||◌, not, List, [],
  ◌∷◌, Option, some, Result, ok, err, Bool-cases, ◌⊎◌, inl, inr, All, In,
}
use mujeeb24_backend_go.Common.Text.{trim_space}
use mujeeb24_backend_go.Validation.{SelectedReference, EffectiveDecision}
use mujeeb24_backend_go.Validation.Evidence.{EvidenceSet, contains_selection, text_or_empty}
use mujeeb24_backend_go.Validation.Evidence.Sound.{&&-both, ||-either}
use mujeeb24_backend_go.Validation.Policy.{BusinessRuntimePolicy, evaluate}
use mujeeb24_backend_go.Validation.Policy.Exact.{allows, evaluate-allows}
use mujeeb24_backend_go.Validation.Policy.Trimmed.{trim_space-evaluate}
use mujeeb24_backend_go.Validation.Validators.{
  ItemRow, VariantRow, OfferRow, Database, RepositoryError, exists, is_blank, in_active_catalog,
  is_variant_of, is_offer_of, is_for_variant, is_selected_item, validate_selection,
  validate_item_ownership, validate_variant_ownership, validate_offer_ownership,
}
use mujeeb24_backend_go.Validation.Pipeline.{
  stage_of, check_selections, check_reference, check_references, validate_structural,
  validate_references, validate_tenant, closed_decision, is_policy_decision, evaluate_policy,
  evaluate_customer_sales_policy, authorize, validate, check_sales_evidence,
}
use mujeeb24_backend_go.Validation.Stage.{
  ValidationInput, Reason, relational, ValidationPipeline, invalid_reference,
}
use mujeeb24_backend_go.Validation.Pipeline.Safe.{
  >>-ok, check->>, check->>_first, is_allowed, effective_of-Gated,
}
use mujeeb24_backend_go.Validation.Pipeline.Structure.{
  Structured, SalesShown, validate_structural-Structured, check_sales_evidence-SalesShown,
}

abbrev pub production :
    Database
    → (String → Option BusinessRuntimePolicy)
    → Option (ValidationInput → EffectiveDecision → Result String EffectiveDecision)
    → ℕ
    → ValidationPipeline
production db get_runtime_policy authorization now = record {
  reference_validator = some (relational (validate_selection db));
  tenant_validator = some (record {
    validate_item = validate_item_ownership db;
    validate_variant = validate_variant_ownership db;
    validate_offer = validate_offer_ownership db;
  });
  customer_sales_policy = some (evaluate get_runtime_policy);
  authorization_service = authorization;
  now = now;
}

pub In-exists :
    {A : Type 0} (p : A → Bool) (xs : List A)
    → exists p xs ≡ true
    → (x : A) × In x xs × (p x ≡ true)
unfolding exists
In-exists p [] h = cc
In-exists p (x ∷ xs) h = elim (||-either (p x) (exists p xs) h) [
  | inl e ↦ (x, inl refl, e)
  | inr e ↦ let (y, m, q) = In-exists p xs e in (y, inr m, q)
]

-- An active variant of the item in the business has this identifier.
abbrev pub VariantOf : Database → ItemRow → String → Type 0
VariantOf db i variant =
    (variant ≡ "")
    ⊎ ((v : VariantRow) × In v db.variants
        × (v.business_id ≡ i.business_id)
        × (v.catalog_item_id ≡ i.id)
        × (v.id ≡ variant)
        × (v.status ≡ "active"))

-- An active offer of the item has this identifier, for the variant that is selected.
abbrev pub OfferOf : Database → ItemRow → String → String → Type 0
OfferOf db i variant offer =
    (offer ≡ "")
    ⊎ ((o : OfferRow) × In o db.offers
        × (o.business_id ≡ i.business_id)
        × (o.catalog_item_id ≡ i.id)
        × (o.id ≡ offer)
        × (o.status ≡ "active")
        × (is_for_variant variant o.variant_id ≡ true))

-- A reference that the model was shown and that the business has.
abbrev pub Grounded : Database → String → EvidenceSet → SelectedReference → Type 0
Grounded db business evidence r =
    (contains_selection evidence r ≡ true)
    × ((i : ItemRow) × In i db.items
        × (i.business_id ≡ business)
        × (i.id ≡ r.item_id)
        × (i.status ≡ "active")
        × VariantOf db i (trim_space (text_or_empty r.variant_id))
        × OfferOf db i (trim_space (text_or_empty r.variant_id))
            (trim_space (text_or_empty r.offer_id)))

variant_row :
    (i : ItemRow) (v : VariantRow) (variant : String)
    → is_variant_of i variant v ≡ true
    → (v.business_id ≡ i.business_id)
      × (v.catalog_item_id ≡ i.id)
      × (v.id ≡ variant)
      × (v.status ≡ "active")
variant_row i v variant q =
    let a = &&-both _ _ q in
    let b = &&-both _ _ a.0 in
    let c = &&-both _ _ b.0 in
    (
      (==_iff v.business_id i.business_id).0 c.0,
      (==_iff v.catalog_item_id i.id).0 c.1,
      (==_iff v.id variant).0 b.1,
      (==_iff v.status "active").0 a.1,
    )

offer_row :
    (i : ItemRow) (o : OfferRow) (variant offer : String)
    → is_offer_of i variant offer o ≡ true
    → (o.business_id ≡ i.business_id)
      × (o.catalog_item_id ≡ i.id)
      × (o.id ≡ offer)
      × (o.status ≡ "active")
      × (is_for_variant variant o.variant_id ≡ true)
offer_row i o variant offer q =
    let z = &&-both _ (is_for_variant variant o.variant_id) q in
    let a = &&-both _ _ z.0 in
    let b = &&-both _ _ a.0 in
    let c = &&-both _ _ b.0 in
    (
      (==_iff o.business_id i.business_id).0 c.0,
      (==_iff o.catalog_item_id i.id).0 c.1,
      (==_iff o.id offer).0 b.1,
      (==_iff o.status "active").0 a.1,
      z.1,
    )

item_row :
    (db : Database) (business item variant offer : String) (i : ItemRow)
    → is_selected_item db business item variant offer i ≡ true
    → (i.business_id ≡ business)
      × (i.id ≡ item)
      × (i.status ≡ "active")
      × (((variant == "") || exists (is_variant_of i variant) db.variants) ≡ true)
      × (((offer == "") || exists (is_offer_of i variant offer) db.offers) ≡ true)
item_row db business item variant offer i q =
    let y = &&-both _ ((offer == "") || exists (is_offer_of i variant offer) db.offers) q in
    let z = &&-both _ ((variant == "") || exists (is_variant_of i variant) db.variants) y.0 in
    let a = &&-both _ (in_active_catalog db i) z.0 in
    let b = &&-both _ _ a.0 in
    let c = &&-both _ _ b.0 in
    (
      (==_iff i.business_id business).0 c.0,
      (==_iff i.id item).0 c.1,
      (==_iff i.status "active").0 b.1,
      z.1,
      y.1,
    )

is_variant_of-VariantOf :
    (db : Database) (i : ItemRow) (variant : String)
    → ((variant == "") || exists (is_variant_of i variant) db.variants) ≡ true
    → VariantOf db i variant
is_variant_of-VariantOf db i variant h = elim (||-either _ _ h) [
  | inl e ↦ inl ((==_iff variant "").0 e)
  | inr e ↦
      let (v, m, q) = In-exists (is_variant_of i variant) db.variants e in
      let row = variant_row i v variant q in inr (v, m, row.0, row.1, row.2, row.3)
]

is_offer_of-OfferOf :
    (db : Database) (i : ItemRow) (variant offer : String)
    → ((offer == "") || exists (is_offer_of i variant offer) db.offers) ≡ true
    → OfferOf db i variant offer
is_offer_of-OfferOf db i variant offer h = elim (||-either _ _ h) [
  | inl e ↦ inl ((==_iff offer "").0 e)
  | inr e ↦
      let (o, m, q) = In-exists (is_offer_of i variant offer) db.offers e in
      let row = offer_row i o variant offer q in inr (o, m, row.0, row.1, row.2, row.3, row.4)
]

validate_selection-Grounded :
    (db : Database) (business : String) (r : SelectedReference) (evidence : EvidenceSet)
    → validate_selection db business r evidence ≡ ok tt
    → Grounded db business evidence r
unfolding validate_selection
validate_selection-Grounded db business r evidence h =
    elim (Bool-cases (is_blank business || is_blank r.item_id)) [
      | inl blank ↦ cc (rw blank at h)
      | inr given ↦ elim (Bool-cases (contains_selection evidence r)) [
        | inr unseen ↦ cc (rw (given, unseen) at h)
        | inl seen ↦ elim (Bool-cases (exists selects db.items)) [
          | inr missing ↦ cc (rw (given, seen, missing) at h)
          | inl found ↦ (seen, selected found)
        ]
      ]
    ]
  where
    selects : ItemRow → Bool
    selects =
        is_selected_item db business r.item_id (trim_space (text_or_empty r.variant_id))
          (trim_space (text_or_empty r.offer_id))

    selected :
        exists selects db.items ≡ true
        → (i : ItemRow) × In i db.items
          × (i.business_id ≡ business)
          × (i.id ≡ r.item_id)
          × (i.status ≡ "active")
          × VariantOf db i (trim_space (text_or_empty r.variant_id))
          × OfferOf db i
              (trim_space (text_or_empty r.variant_id))
              (trim_space (text_or_empty r.offer_id))
    selected found =
        let (i, m, q) = In-exists selects db.items found in
        let (p1, p2, p3, p4, p5) =
          item_row db business r.item_id (trim_space (text_or_empty r.variant_id))
            (trim_space (text_or_empty r.offer_id)) i q in
        (i, m, p1, p2, p3, is_variant_of-VariantOf db i _ p4, is_offer_of-OfferOf db i _ _ p5)

stage_of-ok :
    (category : String) (why : RepositoryError → Reason) (r : Result RepositoryError (Unit {0}))
    → stage_of category why r ≡ ok tt
    → r ≡ ok tt
stage_of-ok category why (ok tt) h = refl
stage_of-ok category why (err e) h = cc

check_selections-Grounded :
    (db : Database) (input : ValidationInput) (i : ℕ) (selected : List SelectedReference)
    → check_selections (check_reference (relational (validate_selection db)) input) i selected
      ≡ ok tt
    → All (Grounded db input.business_id input.evidence) selected
unfolding check_selections
check_selections-Grounded db input i [] h = tt
check_selections-Grounded db input i (r ∷ selected) h = (
  validate_selection-Grounded db input.business_id r input.evidence
      (stage_of-ok "invalid_reference" (invalid_reference i) _ (check->>_first _ _ h)),
  check_selections-Grounded db input (suc i) selected (check->> _ _ h),
)

allowed-closed : (s : String) → (closed_decision s == "allowed") ≡ true → (s == "allowed") ≡ true
allowed-closed s h = elim (Bool-cases (is_policy_decision s)) [
  | inl known ↦ rw known at h
  | inr other ↦ cc (rw other at h)
]

either-second : (a b : Bool) → a ≡ true → (not a || b) ≡ true → b ≡ true
either-second true b h k = k
either-second false b h k = cc

-- A proposal that the pipeline of production allows, with any authorization service: its capability is a
-- terminal one of the registry; with the sales executor it has a sales proposal, which has evidence, no
-- text for the customer, a positive version where it names a workflow, and is a lead that changes no
-- sale or a draft whose lines have valid quantities and are for the selected references one by one;
-- with another executor it has no sales proposal; a message for the customer has a text, and every
-- reference has an item. Where it has a sales proposal, the sales work of the context is on and allows
-- interactions, the messages that it cites are among those that count as evidence, and the workflow
-- that it names, if any, is active in the context at that version. The merchant's policy lets the
-- capability be executed without a human in this context; the decision has that capability and the
-- time of the call; and each reference that it selects was shown to the model and names an active
-- item of the business, with an active variant and an active offer of that item where they are
-- selected, the offer being for the selected variant or for none in particular.
pub validate-Grounded :
    (db : Database) (get_runtime_policy : String → Option BusinessRuntimePolicy)
    (authorization : Option (ValidationInput → EffectiveDecision → Result String EffectiveDecision))
    (now : ℕ) (input : ValidationInput) (eff : EffectiveDecision)
    → validate (production db get_runtime_policy authorization now) input ≡ ok eff
    → is_allowed eff ≡ true
    → Structured input.decision
      × SalesShown input.source_message_reference input.decision.sales input.context
      × (allows get_runtime_policy input.decision.capability input.context ≡ true)
      × (eff.capability ≡ input.decision.capability)
      × (eff.authorized_at ≡ some now)
      × All (Grounded db input.business_id input.evidence) input.decision.selected
unfolding validate validate_references validate_tenant evaluate_customer_sales_policy authorize
    evaluate_policy
validate-Grounded db get_runtime_policy authorization now input eff h allowed =
    let p = production db get_runtime_policy authorization now in
    let structural = >>-ok (validate_structural input.decision) _ eff h in
    let references = >>-ok (validate_references p input) _ eff structural.1 in
    let tenant = >>-ok (validate_tenant p input) _ eff references.1 in
    let result = evaluate get_runtime_policy input.decision input.context in
    let gate = effective_of-Gated authorization now input result eff tenant.1 in
    let sales =
      check_sales_evidence input.source_message_reference input.decision.sales input.context in
    let exposed = check->> sales (check_references p.reference_validator input) references.0 in
    let by_policy : (trim_space result.decision == "allowed") ≡ true =
      allowed-closed (trim_space result.decision)
        (either-second (is_allowed eff) _ allowed gate.1) in
    (
      validate_structural-Structured input.decision structural.0,
      check_sales_evidence-SalesShown input.source_message_reference input.decision.sales
          input.context (check->>_first sales _ references.0),
      sym (evaluate-allows get_runtime_policy input.decision input.context)
          ∙ subst (λ (s : String). (s == "allowed") ≡ true)
              (trim_space-evaluate get_runtime_policy input.decision input.context) by_policy,
      gate.0.0,
      rw allowed at gate.0.2,
      check_selections-Grounded db input 0 input.decision.selected exposed,
    )
