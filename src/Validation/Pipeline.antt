-- ===== src/Validation/Pipeline.antt =====
-- services/ai_validation_pipeline.go. The services that the pipeline calls are functions, and a missing
-- one is `none`. Log lines are left out; `now` is what `Now` answers.
pub mod Safe
pub mod Structure
pub mod Grounded
use mujeeb24_backend_go.Common.{
  ℕ, suc, ◌+◌, String, ◌==◌, Bool, true, false, ◌&&◌, ◌||◌, not, List, [], ◌∷◌, Option, none, some,
  Result, ok, err, ◌>>=◌, ◌>>◌, has, same, if◌then◌else◌,
}
use mujeeb24_backend_go.Common.Int.{ℤ, ℤ-discrete}
use mujeeb24_backend_go.Common.Text.{trim_space}
use mujeeb24_backend_go.Validation.{
  SelectedReference, SalesWorkflowProposal, CapabilityDecision, CapabilityDefinition,
  SalesWorkflowRecord, SalesWorkflowContext, CustomerSalesContext, EffectiveDecision,
  capability_definition_for,
}
use mujeeb24_backend_go.Validation.Evidence.{EvidenceSet, text_or_empty}
use mujeeb24_backend_go.Validation.Policy.{PolicyDecision}
use mujeeb24_backend_go.Validation.Proposal.{
  ProposalError, validate_sales_proposal, sales_message_evidence_references,
}
use mujeeb24_backend_go.Validation.Validators.{RepositoryError}
use mujeeb24_backend_go.Validation.Stage.{
  Checked, Reason, ReferenceValidator, StageFailure, TenantValidator, ValidationInput,
  ValidationPipeline, authorization_bypassed, authorization_failed, evidence_not_exposed, flat,
  invalid_output, invalid_proposal, invalid_reference, not_owned, policy_required,
  reference_validator_required, refuse, relational, response_text_required,
  sales_arguments_without_executor, sales_executor_unavailable, selected_without_item,
  tenant_validator_required, unavailable_terminal_capability, workflow_not_exposed,
}

-- Each selected reference has an item.
unfoldable pub check_selected_items : ℕ → List SelectedReference → Checked
check_selected_items i [] = ok tt
check_selected_items i (r ∷ selected) =
    let rest = check_selected_items (suc i) selected in
    if trim_space r.item_id == "" then invalid_output (selected_without_item i) else rest

abbrev pub refuse_proposal : Result ProposalError (Unit {0}) → Checked
refuse_proposal (ok _) = ok tt
refuse_proposal (err e) = invalid_output (invalid_proposal e)

abbrev pub without_sales : Option SalesWorkflowProposal → Checked
without_sales none = ok tt
without_sales (some sales) = invalid_output sales_arguments_without_executor

abbrev pub check_sales : CapabilityDecision → CapabilityDefinition → Checked
check_sales d definition =
    if definition.executor == "sales"
    then refuse_proposal (validate_sales_proposal d)
    else without_sales d.sales

abbrev pub check_response : CapabilityDecision → CapabilityDefinition → Checked
check_response d definition =
    if definition.sends_customer_message && (trim_space d.response_text == "")
    then invalid_output response_text_required
    else ok tt

pub check_definition : CapabilityDecision → Option CapabilityDefinition → Checked
check_definition d none = invalid_output unavailable_terminal_capability
check_definition d (some definition) =
    if not definition.terminal
    then invalid_output unavailable_terminal_capability
    else check_sales d definition
      >> check_response d definition
      >> check_selected_items 0 d.selected

-- `validateStructural`
unfoldable pub validate_structural : CapabilityDecision → Checked
unfolding check_definition check_selected_items capability_definition_for validate_sales_proposal
validate_structural d = check_definition d (capability_definition_for d.capability)

unfoldable pub check_messages : List String → List String → Checked
check_messages allowed [] = ok tt
check_messages allowed (ref ∷ refs) =
    let rest = check_messages allowed refs in
    if not (ref == "") && has ref allowed
    then rest
    else refuse "validation" "invalid_reference" evidence_not_exposed

unfoldable pub is_exposed : String → ℤ → List SalesWorkflowRecord → Bool
unfolding ℤ-discrete
is_exposed id version [] = false
is_exposed id version (w ∷ active) =
    ((w.id == id) && same ℤ-discrete w.resource_version version) || is_exposed id version active

abbrev pub check_workflow : SalesWorkflowProposal → SalesWorkflowContext → Checked
check_workflow proposal sales =
    if not (proposal.workflow_id == "")
      && not (is_exposed proposal.workflow_id proposal.expected_version sales.active)
    then refuse "validation" "invalid_reference" workflow_not_exposed
    else ok tt

pub check_sales_context :
    String → SalesWorkflowProposal → CustomerSalesContext → Option SalesWorkflowContext → Checked
check_sales_context source proposal c none = invalid_output sales_executor_unavailable
check_sales_context source proposal c (some sales) =
    if not sales.enabled || not sales.allow_interactions
    then invalid_output sales_executor_unavailable
    else check_messages (sales_message_evidence_references source c.recent_messages)
        proposal.evidence_message_ids
      >> check_workflow proposal sales

unfoldable pub check_sales_evidence :
    String → Option SalesWorkflowProposal → Option CustomerSalesContext → Checked
unfolding check_sales_context check_messages is_exposed sales_message_evidence_references
check_sales_evidence source none c = ok tt
check_sales_evidence source (some proposal) none = invalid_output sales_executor_unavailable
check_sales_evidence source (some proposal) (some c) = check_sales_context source proposal c c.sales

abbrev pub stage_of :
    String → (RepositoryError → Reason) → Result RepositoryError (Unit {0}) → Checked
stage_of category why (ok _) = ok tt
stage_of category why (err e) = refuse "validation" category (why e)

-- A reference that is missing or empty is not checked.
abbrev pub if_given : String → Checked → Checked
if_given s check = if s == "" then ok tt else check

unfoldable pub check_selections :
    (ℕ → SelectedReference → Checked) → ℕ → List SelectedReference → Checked
check_selections check i [] = ok tt
check_selections check i (r ∷ selected) =
    let rest = check_selections check (suc i) selected in check i r >> rest

abbrev pub check_reference : ReferenceValidator → ValidationInput → ℕ → SelectedReference → Checked
check_reference (relational validate_selection) input i r =
    stage_of "invalid_reference" (invalid_reference i)
      (validate_selection input.business_id r input.evidence)
check_reference (flat validate_item validate_variant validate_offer) input i r =
    stage_of "invalid_reference" (invalid_reference i)
      (validate_item input.business_id r.item_id input.evidence_item_ids)
    >> if_given (text_or_empty r.variant_id) (
        stage_of "invalid_reference" (invalid_reference i) (
          validate_variant input.business_id (text_or_empty r.variant_id)
            input.evidence_variant_ids))
    >> if_given (text_or_empty r.offer_id) (
        stage_of "invalid_reference" (invalid_reference i)
          (validate_offer input.business_id (text_or_empty r.offer_id) input.evidence_offer_ids))

abbrev pub check_references : Option ReferenceValidator → ValidationInput → Checked
check_references none input = refuse "validation" "invalid_reference" reference_validator_required
check_references (some validator) input =
    check_selections (check_reference validator input) 0 input.decision.selected

-- `validateReferences`
unfoldable pub validate_references : ValidationPipeline → ValidationInput → Checked
unfolding check_sales_evidence check_selections
validate_references p input =
    check_sales_evidence input.source_message_reference input.decision.sales input.context
    >> check_references p.reference_validator input

abbrev pub check_owner : TenantValidator → ValidationInput → ℕ → SelectedReference → Checked
check_owner tenant input i r =
    stage_of "tenant_violation" (not_owned i) (tenant.validate_item input.business_id r.item_id)
    >> if_given (text_or_empty r.variant_id) (
        stage_of "tenant_violation" (not_owned i)
          (tenant.validate_variant input.business_id (text_or_empty r.variant_id)))
    >> if_given (text_or_empty r.offer_id) (
        stage_of "tenant_violation" (not_owned i)
          (tenant.validate_offer input.business_id (text_or_empty r.offer_id)))

abbrev pub check_owners : Option TenantValidator → ValidationInput → Checked
check_owners none input = refuse "validation" "tenant_violation" tenant_validator_required
check_owners (some tenant) input =
    check_selections (check_owner tenant input) 0 input.decision.selected

-- `validateTenant`
unfoldable pub validate_tenant : ValidationPipeline → ValidationInput → Checked
unfolding check_selections
validate_tenant p input = check_owners p.tenant_validator input

abbrev pub is_policy_decision : String → Bool
is_policy_decision s = (s == "allowed") || (s == "requires_approval") || (s == "denied")

-- A decision that is none of the three needs a human.
abbrev pub closed_decision : String → String
closed_decision s = if is_policy_decision s then s else "requires_approval"

abbrev pub closed_reason : String → String → String
closed_reason s reason =
    if not (is_policy_decision s) && (trim_space reason == "")
    then "policy evaluator returned an empty or unsupported decision; requiring human approval"
    else reason

-- The decision that a policy result makes of the proposal.
abbrev pub effective_of : ValidationInput → PolicyDecision → EffectiveDecision
effective_of input result =
    let s = trim_space result.decision in
    record {
      decision_id = input.decision_id;
      capability = input.decision.capability;
      policy_decision = closed_decision s;
      reason = closed_reason s result.reason;
      authorized_at = none;
      executed_at = none;
    }

unfoldable pub evaluate_policy :
    Option (CapabilityDecision → Option CustomerSalesContext → PolicyDecision)
    → ValidationInput
    → Result StageFailure EffectiveDecision
evaluate_policy none input = refuse "policy" "policy_denial" policy_required
evaluate_policy (some evaluate) input =
    ok (effective_of input (evaluate input.decision input.context))

-- `evaluateCustomerSalesPolicy`
unfoldable pub evaluate_customer_sales_policy :
    ValidationPipeline → ValidationInput → Result StageFailure EffectiveDecision
unfolding evaluate_policy
evaluate_customer_sales_policy p input = evaluate_policy p.customer_sales_policy input

abbrev pub bypasses : ValidationInput → EffectiveDecision → EffectiveDecision → Bool
bypasses input decision authorized =
    not (is_policy_decision authorized.policy_decision)
    || not (authorized.capability == input.decision.capability)
    || (not (decision.policy_decision == "allowed") && (authorized.policy_decision == "allowed"))

abbrev pub stamp : ℕ → EffectiveDecision → EffectiveDecision
stamp now authorized = record authorized {
  authorized_at = if authorized.policy_decision == "allowed" then some now else none;
}

unfoldable pub authorized_by :
    ℕ
    → ValidationInput
    → EffectiveDecision
    → Result String EffectiveDecision
    → Result StageFailure EffectiveDecision
authorized_by now input decision (err e) =
    refuse "authorization" "authorization_denial" (authorization_failed e)
authorized_by now input decision (ok authorized) =
    if bypasses input decision authorized
    then refuse "authorization" "authorization_denial" authorization_bypassed
    else ok (stamp now authorized)

unfoldable pub authorize_with :
    Option (ValidationInput → EffectiveDecision → Result String EffectiveDecision)
    → ℕ
    → ValidationInput
    → EffectiveDecision
    → Result StageFailure EffectiveDecision
authorize_with none now input decision = ok (
    if decision.policy_decision == "allowed"
    then record decision { authorized_at = some now }
    else decision)
authorize_with (some authorization) now input decision =
    authorized_by now input decision (authorization input decision)

-- `authorize`
unfoldable pub authorize :
    ValidationPipeline → ValidationInput → EffectiveDecision → Result StageFailure EffectiveDecision
unfolding authorize_with authorized_by
authorize p input decision = authorize_with p.authorization_service p.now input decision

-- `Validate`
unfoldable pub validate :
    ValidationPipeline → ValidationInput → Result StageFailure EffectiveDecision
unfolding validate_structural validate_references validate_tenant evaluate_customer_sales_policy
    authorize
validate p input =
    validate_structural input.decision
    >> (validate_references p input
        >> (validate_tenant p input
            >> (evaluate_customer_sales_policy p input >>= λ decision. authorize p input decision)))
