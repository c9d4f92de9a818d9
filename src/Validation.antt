-- ===== src/Validation.antt =====
-- What a model proposes to do for a customer, and what becomes of it: the structures of
-- application/ports that the validation of services/ai_validation_pipeline.go passes on.
-- A `*string` is an `Option String`.
pub mod Evidence
pub mod Quantity
pub mod Proposal
pub mod Policy
pub mod Validators
pub mod Stage
pub mod Pipeline
mod Tests
use mujeeb24_backend_go.Common.{
  ℕ, String, String-discrete, ◌==◌, Bool, true, false, List, [], ◌∷◌, Option, none, some, Map,
  lookup,
}
use mujeeb24_backend_go.Common.Int.{ℤ}
use mujeeb24_backend_go.Catalog.Projection.{Fields}

pub record SelectedReference : Type 0 where
  pub item_id : String
  pub variant_id : Option String
  pub offer_id : Option String

unfoldable pub SelectedReference-discrete : Discrete SelectedReference
unfolding String-discrete
SelectedReference-discrete = hlevel String-discrete

pub record SalesWorkflowLine : Type 0 where
  pub item_id : String
  pub offer_id : Option String
  pub variant_id : Option String
  pub quantity : String
  pub selected_attributes : Fields

pub record SalesWorkflowProposal : Type 0 where
  pub workflow_id : String
  pub expected_version : ℤ
  pub transaction_type : String
  pub lines : List SalesWorkflowLine
  pub transaction_data : Fields
  pub evidence_message_ids : List String

pub record CapabilityDecision : Type 0 where
  pub capability : String
  pub response_text : String
  pub selected : List SelectedReference
  pub sales : Option SalesWorkflowProposal

-- The fields that the code here reads of the registry's entries.
pub record CapabilityDefinition : Type 0 where
  pub executor : String
  pub terminal : Bool
  pub sends_customer_message : Bool

abbrev customer_message : CapabilityDefinition
customer_message = record { executor = ""; terminal = true; sends_customer_message = true }

abbrev sales_executor : CapabilityDefinition
sales_executor = record { executor = "sales"; terminal = true; sends_customer_message = false }

abbrev not_terminal : CapabilityDefinition
not_terminal = record { executor = ""; terminal = false; sends_customer_message = false }

abbrev pub customer_sales_capability_registry : Map CapabilityDefinition
customer_sales_capability_registry =
    ("respond_without_action", customer_message)
    ∷ ("ask_customer", customer_message)
    ∷ ("handoff_to_human", customer_message)
    ∷ ("evaluate_full_catalog", not_terminal)
    ∷ ("record_lead", sales_executor)
    ∷ ("create_transaction_draft", sales_executor)
    ∷ ("update_transaction_draft", sales_executor)
    ∷ []

-- `CustomerSalesCapabilityDefinitionFor`
unfoldable pub capability_definition_for : String → Option CapabilityDefinition
capability_definition_for capability = lookup capability customer_sales_capability_registry

-- The fields of an active workflow that are compared.
pub record SalesWorkflowRecord : Type 0 where
  pub id : String
  pub resource_version : ℤ

pub record SalesWorkflowContext : Type 0 where
  pub enabled : Bool
  pub allow_interactions : Bool
  pub active : List SalesWorkflowRecord

pub record RecentMessageEvidence : Type 0 where
  pub reference : String
  pub direction : String
  pub origin : String
  pub text : String

-- The fields of the context that the validation and the policy read.
pub record CustomerSalesContext : Type 0 where
  pub sales : Option SalesWorkflowContext
  pub business_reference : String
  pub ai_mode_override : String
  pub recent_messages : List RecentMessageEvidence

pub record EffectiveDecision : Type 0 where
  pub decision_id : String
  pub capability : String
  pub policy_decision : String
  pub reason : String
  pub authorized_at : Option ℕ
  pub executed_at : Option ℕ
