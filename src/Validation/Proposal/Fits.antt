-- ===== src/Validation/Proposal/Fits.antt =====
-- What validateSalesProposal of services/sales_proposal_validation.go leaves of a proposal that it takes.
use mujeeb24_backend_go.Common.{
  ◌==◌, ==_iff, ◌≡◌, ◌≢◌, refl, ap, Bool, true, false, ◌&&◌, ◌||◌, not, List, [], ◌∷◌, Option, none,
  some, ok, err, Bool-cases, ◌⊎◌, inl, inr, All, same, same_iff, length, eqb, map, arith,
  if◌then◌else◌,
}
use mujeeb24_backend_go.Common.Int.{ℤ, pos, negsuc, leb_ℤ}
use mujeeb24_backend_go.Validation.{
  SelectedReference, SelectedReference-discrete, SalesWorkflowLine, SalesWorkflowProposal,
  CapabilityDecision,
}
use mujeeb24_backend_go.Validation.Quantity.{validate_sales_quantity}
use mujeeb24_backend_go.Validation.Proposal.{
  lead_cannot_modify, valid_transaction_type, is_empty, has_no_fields, is_zero, selection_of,
  check_lines, check_draft, check_proposal, sales_proposal_of, validate_sales_proposal,
}

-- A lead changes no sale: it has no line, no workflow and nothing of a transaction.
abbrev pub IsLead : CapabilityDecision → SalesWorkflowProposal → Type 0
IsLead d sales =
    (d.capability ≡ "record_lead")
    × (sales.lines ≡ [])
    × (sales.workflow_id ≡ "")
    × (sales.expected_version ≡ pos 0)
    × (sales.transaction_type ≡ "")
    × (has_no_fields sales.transaction_data ≡ true)

abbrev pub HasQuantity : SalesWorkflowLine → Type 0
HasQuantity l = validate_sales_quantity l.quantity ≡ true

-- A draft has lines of valid quantities, which are for the selected references one by one.
abbrev pub IsDraft : CapabilityDecision → SalesWorkflowProposal → Type 0
IsDraft d sales =
    (valid_transaction_type sales.transaction_type ≡ true)
    × (sales.lines ≢ [])
    × (map selection_of sales.lines ≡ d.selected)
    × All HasQuantity sales.lines

-- A sales proposal has evidence and no text for the customer; a workflow that it names has a version that
-- is positive; and it is a lead or a draft, where the update of a draft names the workflow.
pub record FitsSales (d : CapabilityDecision) (sales : SalesWorkflowProposal) : Type 0 where
  pub proposed : d.sales ≡ some sales
  pub silent : d.response_text ≡ ""
  pub cited : sales.evidence_message_ids ≢ []
  pub versioned : (sales.workflow_id ≡ "") ⊎ (leb_ℤ sales.expected_version (pos 0) ≡ false)
  pub updates : ((d.capability == "update_transaction_draft") && (sales.workflow_id == "")) ≡ false
  pub lead_or_draft : IsLead d sales ⊎ IsDraft d sales

is_empty-[] : {A : Type 0} (xs : List A) → is_empty xs ≡ true → xs ≡ []
is_empty-[] [] h = refl
is_empty-[] (x ∷ xs) h = cc

not_empty : {A : Type 0} (xs : List A) → is_empty xs ≡ false → xs ≢ []
not_empty [] h = cc
not_empty (x ∷ xs) h = λ e. cc

is_zero-pos : (v : ℤ) → is_zero v ≡ true → v ≡ pos 0
is_zero-pos (pos n) h = ap pos (ground (arith, h))
is_zero-pos (negsuc n) h = cc

check_lines-map :
    (lines : List SalesWorkflowLine) (selected : List SelectedReference)
    → eqb (length selected) (length lines) ≡ true
    → check_lines lines selected ≡ ok tt
    → (map selection_of lines ≡ selected) × All HasQuantity lines
unfolding check_lines
check_lines-map [] [] n h = (refl, tt)
check_lines-map [] (s ∷ selected) n h = ground (arith, n)
check_lines-map (l ∷ lines) [] n h = ground (arith, n)
check_lines-map (l ∷ lines) (s ∷ selected) n h =
    elim (Bool-cases (validate_sales_quantity l.quantity)) [
      | inr wrong ↦ cc (rw wrong at h)
      | inl counted ↦ elim (Bool-cases (same SelectedReference-discrete (selection_of l) s)) [
        | inr other ↦ cc (rw (counted, other) at h)
        | inl equal ↦
            let rest =
              check_lines-map lines selected (ground (arith, n)) (rw (counted, equal) at h) in
            (
              rw ((same_iff SelectedReference-discrete (selection_of l) s).0 equal, rest.0),
              (counted, rest.1),
            )
      ]
    ]

unchanged-IsLead :
    (d : CapabilityDecision) (sales : SalesWorkflowProposal)
    → (d.capability == "record_lead") ≡ true
    → (not (is_empty sales.lines)
        || not (sales.workflow_id == "")
        || not (is_zero sales.expected_version)
        || not (sales.transaction_type == "")
        || not (has_no_fields sales.transaction_data))
      ≡ false
    → IsLead d sales
unchanged-IsLead d sales lead h = (
  (==_iff d.capability "record_lead").0 lead,
  is_empty-[] sales.lines (ground (arith, h)),
  (==_iff sales.workflow_id "").0 (ground (arith, h)),
  is_zero-pos sales.expected_version (ground (arith, h)),
  (==_iff sales.transaction_type "").0 (ground (arith, h)),
  ground (arith, h),
)

check_draft-IsDraft :
    (d : CapabilityDecision) (sales : SalesWorkflowProposal)
    → check_draft d sales ≡ ok tt
    → IsDraft d sales
unfolding check_draft
check_draft-IsDraft d sales h =
    elim (Bool-cases
      (not (valid_transaction_type sales.transaction_type) || is_empty sales.lines)) [
        | inl refused ↦ cc (rw refused at h)
        | inr typed ↦ elim (Bool-cases (eqb (length d.selected) (length sales.lines))) [
          | inr differ ↦ cc (rw (typed, differ) at h)
          | inl many ↦
              let lines = check_lines-map sales.lines d.selected many (rw (typed, many) at h) in
              (
                ground (arith, typed),
                not_empty sales.lines (ground (arith, typed)),
                lines.0,
                lines.1,
              )
        ]
      ]

check_kind :
    (d : CapabilityDecision) (sales : SalesWorkflowProposal) (changes : Bool)
    → (if d.capability == "record_lead"
        then if changes then err lead_cannot_modify else ok tt
        else check_draft d sales)
      ≡ ok tt
    → (changes ≡ false → (d.capability == "record_lead") ≡ true → IsLead d sales)
    → IsLead d sales ⊎ IsDraft d sales
check_kind d sales changes h lead = elim (Bool-cases (d.capability == "record_lead")) [
  | inr draft ↦ inr (check_draft-IsDraft d sales (rw draft at h))
  | inl leads ↦ elim (Bool-cases changes) [
    | inl bad ↦ cc (rw (leads, bad) at h)
    | inr none_changed ↦ inl (lead none_changed leads)
  ]
]

check_proposal-FitsSales :
    (d : CapabilityDecision) (sales : SalesWorkflowProposal)
    → d.sales ≡ some sales
    → check_proposal d sales ≡ ok tt
    → FitsSales d sales
unfolding check_proposal
check_proposal-FitsSales d sales found h =
    elim (Bool-cases (not (d.response_text == "") || is_empty sales.evidence_message_ids)) [
      | inl refused ↦ cc (rw refused at h)
      | inr cited ↦
          elim (Bool-cases
            (not (sales.workflow_id == "") && leb_ℤ sales.expected_version (pos 0))) [
              | inl refused ↦ cc (rw (cited, refused) at h)
              | inr versioned ↦
                  elim (Bool-cases
                    ((d.capability == "update_transaction_draft") && (sales.workflow_id == ""))) [
                      | inl refused ↦ cc (rw (cited, versioned, refused) at h)
                      | inr updates ↦ record {
                        proposed = found;
                        silent = (==_iff d.response_text "").0 (ground (arith, cited));
                        cited = not_empty sales.evidence_message_ids (ground (arith, cited));
                        versioned = elim (Bool-cases (sales.workflow_id == "")) [
                          | inl new ↦ inl ((==_iff sales.workflow_id "").0 new)
                          | inr named ↦ inr (ground (arith, versioned, named))
                        ];
                        updates = updates;
                        lead_or_draft =
                            check_kind d sales _ (rw (cited, versioned, updates) at h)
                              (λ kept leads. unchanged-IsLead d sales leads kept);
                      }
                    ]
            ]
    ]

sales_proposal_of-FitsSales :
    (d : CapabilityDecision) (s : Option SalesWorkflowProposal)
    → d.sales ≡ s
    → sales_proposal_of d s ≡ ok tt
    → (sales : SalesWorkflowProposal) × FitsSales d sales
unfolding sales_proposal_of
sales_proposal_of-FitsSales d none found h = cc
sales_proposal_of-FitsSales d (some sales) found h =
    (sales, check_proposal-FitsSales d sales found h)

pub validate_sales_proposal-FitsSales :
    (d : CapabilityDecision)
    → validate_sales_proposal d ≡ ok tt
    → (sales : SalesWorkflowProposal) × FitsSales d sales
unfolding validate_sales_proposal
validate_sales_proposal-FitsSales d h = sales_proposal_of-FitsSales d d.sales refl h
