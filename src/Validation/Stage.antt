-- ===== src/Validation/Stage.antt =====
-- services/ai_validation_pipeline.go: the input of the pipeline, its services and its failures.
use mujeeb24_backend_go.Common.{ℕ, String, List, Option, Result, err}
use mujeeb24_backend_go.Validation.{
  SelectedReference, CapabilityDecision, CustomerSalesContext, EffectiveDecision,
}
use mujeeb24_backend_go.Validation.Evidence.{EvidenceSet}
use mujeeb24_backend_go.Validation.Policy.{PolicyDecision}
use mujeeb24_backend_go.Validation.Proposal.{ProposalError}
use mujeeb24_backend_go.Validation.Validators.{RepositoryError}

pub record ValidationInput : Type 0 where
  pub decision_id : String
  pub source_message_reference : String
  pub business_id : String
  pub decision : CapabilityDecision
  pub context : Option CustomerSalesContext
  pub evidence : EvidenceSet
  pub evidence_item_ids : List String
  pub evidence_variant_ids : List String
  pub evidence_offer_ids : List String

pub data Reason : Type 0 where
  unavailable_terminal_capability sales_arguments_without_executor : Reason
  invalid_proposal : ProposalError → Reason
  response_text_required : Reason
  selected_without_item : ℕ → Reason
  sales_executor_unavailable evidence_not_exposed workflow_not_exposed : Reason
  reference_validator_required tenant_validator_required policy_required : Reason
  invalid_reference not_owned : ℕ → RepositoryError → Reason
  authorization_failed : String → Reason
  authorization_bypassed : Reason

-- The stage and the category are those of `ports`; the reason tells the cases apart.
pub record StageFailure : Type 0 where
  pub stage : String
  pub category : String
  pub reason : Reason

-- The two kinds of reference validators; production has the relational one.
pub data ReferenceValidator : Type 0 where
  relational :
      (String → SelectedReference → EvidenceSet → Result RepositoryError (Unit {0}))
      → ReferenceValidator
  flat :
      (String → String → List String → Result RepositoryError (Unit {0}))
      → (String → String → List String → Result RepositoryError (Unit {0}))
      → (String → String → List String → Result RepositoryError (Unit {0}))
      → ReferenceValidator

pub record TenantValidator : Type 0 where
  pub validate_item : String → String → Result RepositoryError (Unit {0})
  pub validate_variant : String → String → Result RepositoryError (Unit {0})
  pub validate_offer : String → String → Result RepositoryError (Unit {0})

pub record ValidationPipeline : Type 0 where
  pub reference_validator : Option ReferenceValidator
  pub tenant_validator : Option TenantValidator
  pub customer_sales_policy :
      Option (CapabilityDecision → Option CustomerSalesContext → PolicyDecision)
  pub authorization_service :
      Option (ValidationInput → EffectiveDecision → Result String EffectiveDecision)
  pub now : ℕ

abbrev pub Checked : Type 0
Checked = Result StageFailure (Unit {0})

abbrev pub refuse {ℓ} : {A : Type ℓ} → String → String → Reason → Result StageFailure A
refuse stage category why = err (record { stage = stage; category = category; reason = why })

abbrev pub invalid_output {ℓ} : {A : Type ℓ} → Reason → Result StageFailure A
invalid_output why = refuse "validation" "invalid_ai_output" why
