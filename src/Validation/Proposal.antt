-- ===== src/Validation/Proposal.antt =====
-- services/sales_proposal_validation.go, and the references of ports/sales_message_evidence.go.
pub mod Fits
use mujeeb24_backend_go.Common.{
  String, ◌==◌, Bool, true, false, ◌&&◌, ◌||◌, not, List, [], ◌∷◌, ◌++◌, Option, none, some, Result,
  ok, err, has, same, eqb, length, if◌then◌else◌,
}
use mujeeb24_backend_go.Common.Int.{ℤ, pos, negsuc, leb_ℤ}
use mujeeb24_backend_go.Common.Text.{trim_space}
use mujeeb24_backend_go.Catalog.Projection.{Fields, end, field}
use mujeeb24_backend_go.Validation.{
  SelectedReference, SelectedReference-discrete, SalesWorkflowLine, SalesWorkflowProposal,
  CapabilityDecision, RecentMessageEvidence,
}
use mujeeb24_backend_go.Validation.Quantity.{validate_sales_quantity}

pub data ProposalError : Type 0 where
  evidence_required version_required workflow_id_required : ProposalError
  lead_cannot_modify draft_requires_lines references_must_match : ProposalError
  invalid_quantity selection_differs : ProposalError

-- `validTransactionType`
unfoldable pub valid_transaction_type : String → Bool
valid_transaction_type value = has value (
    "order" ∷ "booking" ∷ "appointment" ∷ "service_request" ∷ "reservation" ∷ "quote"
    ∷ "subscription" ∷ [])

abbrev pub is_empty {ℓ} : {A : Type ℓ} → List A → Bool
is_empty [] = true
is_empty (x ∷ xs) = false

abbrev pub has_no_fields : Fields → Bool
has_no_fields end = true
has_no_fields (field k v fs) = false

abbrev pub is_zero : ℤ → Bool
is_zero (pos n) = eqb n 0
is_zero (negsuc n) = false

-- What is compared of a line; two references have the same JSON text if they are the same.
abbrev pub selection_of : SalesWorkflowLine → SelectedReference
selection_of l = record { item_id = l.item_id; variant_id = l.variant_id; offer_id = l.offer_id }

-- The lines beside the selected references. The numbers are equal when this is called.
unfoldable pub check_lines :
    List SalesWorkflowLine → List SelectedReference → Result ProposalError (Unit {0})
unfolding SelectedReference-discrete
check_lines [] selected = ok tt
check_lines (l ∷ lines) [] = ok tt
check_lines (l ∷ lines) (s ∷ selected) =
    let rest = check_lines lines selected in
    if not (validate_sales_quantity l.quantity)
    then err invalid_quantity
    else if not (same SelectedReference-discrete (selection_of l) s)
    then err selection_differs
    else rest

unfoldable pub check_draft :
    CapabilityDecision → SalesWorkflowProposal → Result ProposalError (Unit {0})
unfolding check_lines valid_transaction_type
check_draft d sales =
    if not (valid_transaction_type sales.transaction_type) || is_empty sales.lines
    then err draft_requires_lines
    else if not (eqb (length d.selected) (length sales.lines))
    then err references_must_match
    else check_lines sales.lines d.selected

unfoldable pub check_proposal :
    CapabilityDecision → SalesWorkflowProposal → Result ProposalError (Unit {0})
unfolding check_draft
check_proposal d sales =
    if not (d.response_text == "") || is_empty sales.evidence_message_ids
    then err evidence_required
    else if not (sales.workflow_id == "") && leb_ℤ sales.expected_version (pos 0)
    then err version_required
    else if (d.capability == "update_transaction_draft") && (sales.workflow_id == "")
    then err workflow_id_required
    else if d.capability == "record_lead"
    then if not (is_empty sales.lines)
        || not (sales.workflow_id == "")
        || not (is_zero sales.expected_version)
        || not (sales.transaction_type == "")
        || not (has_no_fields sales.transaction_data)
      then err lead_cannot_modify
      else ok tt
    else check_draft d sales

unfoldable pub sales_proposal_of :
    CapabilityDecision → Option SalesWorkflowProposal → Result ProposalError (Unit {0})
unfolding check_proposal
sales_proposal_of d none = err evidence_required
sales_proposal_of d (some sales) = check_proposal d sales

-- `validateSalesProposal`
unfoldable pub validate_sales_proposal : CapabilityDecision → Result ProposalError (Unit {0})
unfolding sales_proposal_of
validate_sales_proposal d = sales_proposal_of d d.sales

-- `add` of SalesMessageEvidenceReferences, on the references that are kept already.
abbrev pub add_reference : String → List String → List String
add_reference ref refs = if (trim_space ref == "") || has ref refs then refs else refs ++ ref ∷ []

abbrev pub is_customer_message : RecentMessageEvidence → Bool
is_customer_message m =
    (m.direction == "inbound") && (m.origin == "customer") && not (trim_space m.text == "")

unfoldable pub add_messages : List RecentMessageEvidence → List String → List String
add_messages [] refs = refs
add_messages (m ∷ recent) refs =
    add_messages recent (if is_customer_message m then add_reference m.reference refs else refs)

-- `SalesMessageEvidenceReferences`
unfoldable pub sales_message_evidence_references : String → List RecentMessageEvidence → List String
unfolding add_messages
sales_message_evidence_references source recent = add_messages recent (add_reference source [])
