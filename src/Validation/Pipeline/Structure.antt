-- ===== src/Validation/Pipeline/Structure.antt =====
-- What the checks of the decision itself (validateStructural) and of the messages and the workflow that
-- a sales proposal refers to (validateReferences) leave of a decision that passes them.
use mujeeb24_backend_go.Common.{
  ℕ, suc, String, ◌==◌, ==_iff, ◌≡◌, refl, true, false, ◌&&◌, List, [], ◌∷◌, Option, none, some, ok,
  err, ◌>>◌, Bool-cases, ◌⊎◌, inl, inr, All, In, ◌≢◌, has, has-In, same_iff,
}
use mujeeb24_backend_go.Common.Int.{ℤ, ℤ-discrete}
use mujeeb24_backend_go.Common.Text.{trim_space}
use mujeeb24_backend_go.Validation.{
  SelectedReference, CapabilityDecision, CapabilityDefinition, CustomerSalesContext,
  SalesWorkflowContext, SalesWorkflowProposal, SalesWorkflowRecord, capability_definition_for,
}
use mujeeb24_backend_go.Validation.Evidence.Sound.{&&-both, ||-either}
use mujeeb24_backend_go.Validation.Proposal.{
  validate_sales_proposal, sales_message_evidence_references,
}
use mujeeb24_backend_go.Validation.Proposal.Fits.{FitsSales, validate_sales_proposal-FitsSales}
use mujeeb24_backend_go.Validation.Pipeline.{
  check_selected_items, refuse_proposal, without_sales, check_sales, check_response,
  check_definition, validate_structural, check_messages, is_exposed, check_workflow,
  check_sales_context, check_sales_evidence,
}
use mujeeb24_backend_go.Validation.Pipeline.Safe.{check->>, check->>_first}

abbrev pub HasItem : SelectedReference → Type 0
HasItem r = (trim_space r.item_id == "") ≡ false

-- The sales executor gets a sales proposal that fits the capability, and no other executor gets one.
abbrev pub FitsExecutor : CapabilityDecision → CapabilityDefinition → Type 0
FitsExecutor d definition =
    ((definition.executor == "sales") ≡ true)
      × ((sales : SalesWorkflowProposal) × FitsSales d sales)
    ⊎ ((definition.executor == "sales") ≡ false) × (d.sales ≡ none)

-- The capability is a terminal one of the registry, with its arguments.
abbrev pub Structured : CapabilityDecision → Type 0
Structured d =
    (definition : CapabilityDefinition) × (capability_definition_for d.capability ≡ some definition)
    × (definition.terminal ≡ true)
    × FitsExecutor d definition
    × ((definition.sends_customer_message && (trim_space d.response_text == "")) ≡ false)
    × All HasItem d.selected

-- A message that counts as evidence.
abbrev pub IsMessage : List String → String → Type 0
IsMessage allowed ref = (ref ≢ "") × In ref allowed

-- One of the workflows has this identifier and this version.
abbrev pub ActiveAt : String → ℤ → List SalesWorkflowRecord → Type 0
ActiveAt id version active =
    (w : SalesWorkflowRecord) × In w active × (w.id ≡ id) × (w.resource_version ≡ version)

-- The sales work of the context is on, the messages of the proposal are among those of the context
-- that count as evidence, and the workflow that it changes is an active one, at that version.
abbrev pub ShownIn : String → SalesWorkflowProposal → CustomerSalesContext → Type 0
ShownIn source proposal c =
    (sales : SalesWorkflowContext) × (c.sales ≡ some sales)
    × (sales.enabled ≡ true)
    × (sales.allow_interactions ≡ true)
    × All (IsMessage (sales_message_evidence_references source c.recent_messages))
        proposal.evidence_message_ids
    × ((proposal.workflow_id ≡ "")
        ⊎ ActiveAt proposal.workflow_id proposal.expected_version sales.active)

abbrev pub SalesShown : String → Option SalesWorkflowProposal → Option CustomerSalesContext → Type 0
SalesShown source none context = Unit {0}
SalesShown source (some proposal) none = ⊥
SalesShown source (some proposal) (some c) = ShownIn source proposal c

check_selected_items-HasItem :
    (i : ℕ) (selected : List SelectedReference)
    → check_selected_items i selected ≡ ok tt
    → All HasItem selected
unfolding check_selected_items
check_selected_items-HasItem i [] h = tt
check_selected_items-HasItem i (r ∷ selected) h = elim (Bool-cases (trim_space r.item_id == "")) [
  | inl blank ↦ cc (rw blank at h)
  | inr given ↦ (given, check_selected_items-HasItem (suc i) selected (rw given at h))
]

refuse_proposal-ok : (r : _) → refuse_proposal r ≡ ok tt → r ≡ ok tt
refuse_proposal-ok (ok tt) h = refl
refuse_proposal-ok (err e) h = cc

without_sales-ok : (s : Option SalesWorkflowProposal) → without_sales s ≡ ok tt → s ≡ none
without_sales-ok none h = refl
without_sales-ok (some sales) h = cc

check_sales-FitsExecutor :
    (d : CapabilityDecision) (definition : CapabilityDefinition)
    → check_sales d definition ≡ ok tt
    → FitsExecutor d definition
check_sales-FitsExecutor d definition h = elim (Bool-cases (definition.executor == "sales")) [
  | inl sells ↦ inl (
    sells,
    validate_sales_proposal-FitsSales d
        (refuse_proposal-ok (validate_sales_proposal d) (rw sells at h)),
  )
  | inr other ↦ inr (other, without_sales-ok d.sales (rw other at h))
]

check_response-given :
    (d : CapabilityDecision) (definition : CapabilityDefinition)
    → check_response d definition ≡ ok tt
    → (definition.sends_customer_message && (trim_space d.response_text == "")) ≡ false
check_response-given d definition h =
    elim (Bool-cases (definition.sends_customer_message && (trim_space d.response_text == ""))) [
      | inl blank ↦ cc (rw blank at h)
      | inr given ↦ given
    ]

check_definition-Structured :
    (d : CapabilityDecision) (o : Option CapabilityDefinition)
    → capability_definition_for d.capability ≡ o
    → check_definition d o ≡ ok tt
    → Structured d
unfolding check_definition
check_definition-Structured d none found h = cc
check_definition-Structured d (some definition) found h = elim (Bool-cases definition.terminal) [
  | inr pending ↦ cc (rw pending at h)
  | inl terminal ↦
      let checks = rw terminal at h in
      let both =
        check->>_first (check_sales d definition >> check_response d definition) _ checks in
      (
        definition,
        found,
        terminal,
        check_sales-FitsExecutor d definition (check->>_first _ _ both),
        check_response-given d definition (check->> (check_sales d definition) _ both),
        check_selected_items-HasItem 0 d.selected
            (check->> (check_sales d definition >> check_response d definition) _ checks),
      )
]

pub validate_structural-Structured :
    (d : CapabilityDecision) → validate_structural d ≡ ok tt → Structured d
unfolding validate_structural
validate_structural-Structured d h =
    check_definition-Structured d (capability_definition_for d.capability) refl h

check_messages-IsMessage :
    (allowed refs : List String)
    → check_messages allowed refs ≡ ok tt
    → All (IsMessage allowed) refs
unfolding check_messages
check_messages-IsMessage allowed [] h = tt
check_messages-IsMessage allowed (ref ∷ refs) h = elim (Bool-cases (ref == "")) [
  | inl blank ↦ cc (rw blank at h)
  | inr given ↦ elim (Bool-cases (has ref allowed)) [
    | inr unseen ↦ cc (rw (given, unseen) at h)
    | inl seen ↦ (
      (λ empty. cc (rw ((==_iff ref "").1 empty) at given), has-In ref allowed seen),
      check_messages-IsMessage allowed refs (rw (given, seen) at h),
    )
  ]
]

is_exposed-ActiveAt :
    (id : String) (version : ℤ) (active : List SalesWorkflowRecord)
    → is_exposed id version active ≡ true
    → ActiveAt id version active
unfolding is_exposed
is_exposed-ActiveAt id version [] h = cc
is_exposed-ActiveAt id version (w ∷ active) h =
    elim (||-either _ (is_exposed id version active) h) [
      | inl here ↦
          let (named, current) = &&-both _ _ here in
          (
            w,
            inl refl,
            (==_iff w.id id).0 named,
            (same_iff ℤ-discrete w.resource_version version).0 current,
          )
      | inr later ↦
          let (v, m, q, r) = is_exposed-ActiveAt id version active later in (v, inr m, q, r)
    ]

check_workflow-exposed :
    (proposal : SalesWorkflowProposal) (sales : SalesWorkflowContext)
    → check_workflow proposal sales ≡ ok tt
    → (proposal.workflow_id ≡ "")
      ⊎ ActiveAt proposal.workflow_id proposal.expected_version sales.active
check_workflow-exposed proposal sales h = elim (Bool-cases (proposal.workflow_id == "")) [
  | inl new ↦ inl ((==_iff proposal.workflow_id "").0 new)
  | inr named ↦
      elim (Bool-cases (is_exposed proposal.workflow_id proposal.expected_version sales.active)) [
        | inl exposed ↦ inr (is_exposed-ActiveAt _ _ sales.active exposed)
        | inr hidden ↦ cc (rw (named, hidden) at h)
      ]
]

check_sales_context-ShownIn :
    (source : String) (proposal : SalesWorkflowProposal) (c : CustomerSalesContext)
    (o : Option SalesWorkflowContext)
    → c.sales ≡ o
    → check_sales_context source proposal c o ≡ ok tt
    → ShownIn source proposal c
unfolding check_sales_context
check_sales_context-ShownIn source proposal c none found h = cc
check_sales_context-ShownIn source proposal c (some sales) found h =
    elim (Bool-cases sales.enabled) [
      | inr off ↦ cc (rw off at h)
      | inl on ↦ elim (Bool-cases sales.allow_interactions) [
        | inr closed ↦ cc (rw (on, closed) at h)
        | inl opened ↦
            let checks = rw (on, opened) at h in
            (
              sales,
              found,
              on,
              opened,
              check_messages-IsMessage _ proposal.evidence_message_ids (check->>_first _ _ checks),
              check_workflow-exposed proposal sales (check->> (check_messages _ _) _ checks),
            )
      ]
    ]

pub check_sales_evidence-SalesShown :
    (source : String) (s : Option SalesWorkflowProposal) (c : Option CustomerSalesContext)
    → check_sales_evidence source s c ≡ ok tt
    → SalesShown source s c
unfolding check_sales_evidence
check_sales_evidence-SalesShown source none c h = tt
check_sales_evidence-SalesShown source (some proposal) none h = cc
check_sales_evidence-SalesShown source (some proposal) (some c) h =
    check_sales_context-ShownIn source proposal c c.sales refl h
