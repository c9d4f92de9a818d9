-- ===== src/Validation/Policy.antt =====
-- The merchant's policy: adapters/secondary/persistence/postgres/policy_evaluator.go. The lookup of the
-- policy answers nothing when the repository fails.
pub mod Exact
pub mod Trimmed
use mujeeb24_backend_go.Common.{
  String, ◌==◌, Bool, true, false, ◌&&◌, ◌||◌, not, List, [], ◌∷◌, Option, none, some,
  if◌then◌else◌,
}
use mujeeb24_backend_go.Common.Text.{trim_space}
use mujeeb24_backend_go.Validation.{
  CapabilityDecision, CapabilityDefinition, CustomerSalesContext, SalesWorkflowContext,
  capability_definition_for,
}
use mujeeb24_backend_go.Validation.Proposal.{is_empty}

-- The columns that the evaluation reads.
pub record BusinessRuntimePolicy : Type 0 where
  pub sales_workflow_enabled : Bool
  pub allow_sales_interactions : Bool
  pub ai_mode : String
  pub default_human_review : Bool
  pub allow_auto_reply : Bool
  pub allow_auto_lead_creation : Bool
  pub allow_auto_transaction_draft : Bool

pub record PolicyDecision : Type 0 where
  pub decision : String
  pub requires_human : Bool
  pub reason : String

abbrev pub sales_policy : BusinessRuntimePolicy → String → String
sales_policy policy capability =
    if not policy.sales_workflow_enabled
      || not policy.allow_sales_interactions
      || (policy.ai_mode == "disabled")
    then "denied"
    else if not (policy.ai_mode == "restricted_auto") || policy.default_human_review
    then "requires_approval"
    else if capability == "record_lead"
    then if policy.allow_auto_lead_creation then "allowed" else "requires_approval"
    else if policy.allow_auto_transaction_draft
    then "allowed"
    else "requires_approval"

abbrev pub message_policy : BusinessRuntimePolicy → CapabilityDefinition → String
message_policy policy definition =
    if policy.ai_mode == "disabled"
    then "denied"
    else if (policy.ai_mode == "assist") || (policy.ai_mode == "approval")
    then "requires_approval"
    else if policy.ai_mode == "restricted_auto"
    then if policy.default_human_review
      then "requires_approval"
      else if not definition.terminal
      then "denied"
      else if definition.sends_customer_message && policy.allow_auto_reply
      then "allowed"
      else "requires_approval"
    else "requires_approval"

unfoldable pub policy_of : BusinessRuntimePolicy → String → Option CapabilityDefinition → String
policy_of policy capability none = "denied"
policy_of policy capability (some definition) =
    if definition.executor == "sales"
    then sales_policy policy capability
    else message_policy policy definition

-- `evaluatePolicyAgainstCapability`
unfoldable pub evaluate_policy_against_capability : BusinessRuntimePolicy → String → String
unfolding policy_of capability_definition_for
evaluate_policy_against_capability policy capability =
    policy_of policy capability (capability_definition_for capability)

abbrev pub has_active : Option SalesWorkflowContext → Bool
has_active none = false
has_active (some sales) = not (is_empty sales.active)

abbrev pub approval_for : String → PolicyDecision
approval_for reason = record {
  decision = "requires_approval";
  requires_human = true;
  reason = reason;
}

abbrev missing_context : String
missing_context =
    "customer sales business context is missing; requiring human approval per contract ⑥ §13"

-- A question about an open sale may be sent although replies are not automatic.
abbrev pub asks_in_open_sale : BusinessRuntimePolicy → CustomerSalesContext → String → Bool
asks_in_open_sale policy c capability =
    (capability == "ask_customer")
    && has_active c.sales
    && (policy.ai_mode == "restricted_auto")
    && not policy.default_human_review
    && policy.sales_workflow_enabled
    && policy.allow_sales_interactions

abbrev pub decided : String → PolicyDecision
decided decision = record {
  decision = decision;
  requires_human = decision == "requires_approval";
  reason = "customer sales policy evaluation completed per contract ⑥ §12";
}

unfoldable pub evaluate_fetched :
    CustomerSalesContext → String → Option BusinessRuntimePolicy → PolicyDecision
unfolding evaluate_policy_against_capability
evaluate_fetched c capability none = approval_for missing_context
evaluate_fetched c capability (some policy) =
    if c.ai_mode_override == "disabled"
    then record {
      decision = "denied";
      requires_human = false;
      reason = "conversation AI is disabled";
    }
    else if c.ai_mode_override == "draft_only"
    then approval_for "conversation requires human approval"
    else decided (
        if asks_in_open_sale policy c capability
        then "allowed"
        else evaluate_policy_against_capability policy capability)

-- `Evaluate`, whose receiver and repository are there.
unfoldable pub evaluate :
    (String → Option BusinessRuntimePolicy)
    → CapabilityDecision
    → Option CustomerSalesContext
    → PolicyDecision
unfolding evaluate_fetched
evaluate get_runtime_policy d none = approval_for missing_context
evaluate get_runtime_policy d (some c) =
    if trim_space c.business_reference == ""
    then approval_for missing_context
    else evaluate_fetched c d.capability (get_runtime_policy c.business_reference)
