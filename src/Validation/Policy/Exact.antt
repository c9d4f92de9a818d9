-- ===== src/Validation/Policy/Exact.antt =====
-- When the policy of the merchant lets a proposal be executed without a human.
use mujeeb24_backend_go.Common.{
  String, ◌==◌, ==_iff, ◌≡◌, refl, sym, ◌∙◌, subst, Bool, true, false, ◌&&◌, ◌||◌, not, List, [],
  ◌∷◌, Option, none, some, if◌then◌else◌, Bool-cases, inl, inr, arith, has,
}
use mujeeb24_backend_go.Common.Text.{trim_space}
use mujeeb24_backend_go.Validation.{
  CapabilityDecision, CapabilityDefinition, CustomerSalesContext, SalesWorkflowContext,
  capability_definition_for,
}
use mujeeb24_backend_go.Validation.Policy.{
  BusinessRuntimePolicy, policy_of, evaluate_policy_against_capability, has_active, sales_policy,
  message_policy, asks_in_open_sale, evaluate_fetched, evaluate,
}

abbrev pub message_capabilities : List String
message_capabilities = "respond_without_action" ∷ "ask_customer" ∷ "handoff_to_human" ∷ []

-- Replies go out where they are automatic.
abbrev pub replies_automatically : BusinessRuntimePolicy → String → Bool
replies_automatically policy capability =
    has capability message_capabilities && policy.allow_auto_reply

-- Sales are recorded where the workflow is on and leads, or drafts, are automatic.
abbrev pub sells_automatically : BusinessRuntimePolicy → String → Bool
sells_automatically policy capability =
    policy.sales_workflow_enabled
    && policy.allow_sales_interactions
    && (((capability == "record_lead") && policy.allow_auto_lead_creation)
        || (has capability ("create_transaction_draft" ∷ "update_transaction_draft" ∷ [])
            && policy.allow_auto_transaction_draft))

-- A question in an open sale goes out where the workflow is on.
abbrev pub asks_automatically : BusinessRuntimePolicy → Option SalesWorkflowContext → String → Bool
asks_automatically policy sales capability =
    (capability == "ask_customer")
    && has_active sales
    && policy.sales_workflow_enabled
    && policy.allow_sales_interactions

abbrev pub is_automatic : BusinessRuntimePolicy → CustomerSalesContext → String → Bool
is_automatic policy c capability =
    not (c.ai_mode_override == "disabled")
    && not (c.ai_mode_override == "draft_only")
    && (policy.ai_mode == "restricted_auto")
    && not policy.default_human_review
    && (replies_automatically policy capability
        || sells_automatically policy capability
        || asks_automatically policy c.sales capability)

abbrev pub allows_fetched : CustomerSalesContext → String → Option BusinessRuntimePolicy → Bool
allows_fetched c capability none = false
allows_fetched c capability (some policy) = is_automatic policy c capability

abbrev pub allows :
    (String → Option BusinessRuntimePolicy) → String → Option CustomerSalesContext → Bool
allows get_runtime_policy capability none = false
allows get_runtime_policy capability (some c) =
    not (trim_space c.business_reference == "")
    && allows_fetched c capability (get_runtime_policy c.business_reference)

-- A capability is one of the registry's, or the registry does not know it.
capability-cases {κ} :
    (Q : String → Type κ) (capability : String)
    → Q "respond_without_action"
    → Q "ask_customer"
    → Q "handoff_to_human"
    → Q "evaluate_full_catalog"
    → Q "record_lead"
    → Q "create_transaction_draft"
    → Q "update_transaction_draft"
    → (("respond_without_action" == capability) ≡ false
        → ("ask_customer" == capability) ≡ false
        → ("handoff_to_human" == capability) ≡ false
        → ("evaluate_full_catalog" == capability) ≡ false
        → ("record_lead" == capability) ≡ false
        → ("create_transaction_draft" == capability) ≡ false
        → ("update_transaction_draft" == capability) ≡ false
        → Q capability)
    → Q capability
capability-cases Q capability q1 q2 q3 q4 q5 q6 q7 q8 = step "respond_without_action" q1 λ n1.
    step "ask_customer" q2 λ n2. step "handoff_to_human" q3 λ n3.
      step "evaluate_full_catalog" q4 λ n4. step "record_lead" q5 λ n5.
        step "create_transaction_draft" q6
          λ n6. step "update_transaction_draft" q7 λ n7. q8 n1 n2 n3 n4 n5 n6 n7
  where
    step : (name : String) → Q name → ((name == capability) ≡ false → Q capability) → Q capability
    step name q rest = elim (Bool-cases (name == capability)) [
      | inl e ↦ subst Q ((==_iff name capability).0 e) q
      | inr n ↦ rest n
    ]

eq_flip : (a b : String) → (a == b) ≡ false → (b == a) ≡ false
eq_flip a b h = ground (arith, ==_iff a b, ==_iff b a)

is_allowed_text : String → Bool
is_allowed_text s = s == "allowed"

is_allowed-if :
    (b : Bool) (x y : String)
    → is_allowed_text (if b then x else y) ≡ (if b then is_allowed_text x else is_allowed_text y)
is_allowed-if true x y = refl
is_allowed-if false x y = refl

allowed_lem : is_allowed_text "allowed" ≡ true
unfolding is_allowed_text
allowed_lem = refl

approval_lem : is_allowed_text "requires_approval" ≡ false
unfolding is_allowed_text
approval_lem = refl

denied_lem : is_allowed_text "denied" ≡ false
unfolding is_allowed_text
denied_lem = refl

ruleset texts = (is_allowed-if, allowed_lem, approval_lem, denied_lem)

not_allowed_if :
    (b : Bool) (x y : String)
    → is_allowed_text x ≡ false
    → is_allowed_text y ≡ false
    → is_allowed_text (if b then x else y) ≡ false
not_allowed_if true x y p q = p
not_allowed_if false x y p q = q

-- In another mode nothing is executed without a human.
manual_mode :
    (policy : BusinessRuntimePolicy) (capability : String)
    → (policy.ai_mode == "restricted_auto") ≡ false
    → is_allowed_text (evaluate_policy_against_capability policy capability) ≡ false
unfolding evaluate_policy_against_capability policy_of is_allowed_text
manual_mode policy capability m = by_definition (capability_definition_for capability)
  where
    by_definition :
        (o : Option CapabilityDefinition) → is_allowed_text (policy_of policy capability o) ≡ false
    by_definition none = refl
    by_definition (some d) =
        not_allowed_if (d.executor == "sales") (sales_policy policy capability)
          (message_policy policy d)
          (not_allowed_if
            (not policy.sales_workflow_enabled
              || not policy.allow_sales_interactions
              || (policy.ai_mode == "disabled"))
            "denied" _ refl (rw m))
          (not_allowed_if (policy.ai_mode == "disabled") "denied" _ refl (
            not_allowed_if ((policy.ai_mode == "assist") || (policy.ai_mode == "approval"))
              "requires_approval" _ refl (rw m)))

automatic_mode :
    (policy : BusinessRuntimePolicy) (sales : Option SalesWorkflowContext) (capability : String)
    → is_allowed_text (
        if (capability == "ask_customer")
          && has_active sales
          && true
          && not policy.default_human_review
          && policy.sales_workflow_enabled
          && policy.allow_sales_interactions
        then "allowed"
        else evaluate_policy_against_capability
            (record policy { ai_mode = "restricted_auto" })
            capability)
      ≡ (not policy.default_human_review
          && (replies_automatically policy capability
              || sells_automatically policy capability
              || asks_automatically policy sales capability))
unfolding evaluate_policy_against_capability policy_of capability_definition_for
automatic_mode policy sales capability =
    capability-cases
      (λ capability.
        is_allowed_text (
          if (capability == "ask_customer")
            && has_active sales
            && true
            && not policy.default_human_review
            && policy.sales_workflow_enabled
            && policy.allow_sales_interactions
          then "allowed"
          else evaluate_policy_against_capability (record policy { ai_mode = "restricted_auto" })
              capability)
        ≡ (not policy.default_human_review
            && (replies_automatically policy capability
                || sells_automatically policy capability
                || asks_automatically policy sales capability)))
      capability (simp texts (ground arith)) (simp texts (ground arith)) (simp texts (ground arith))
      (simp texts (ground arith)) (simp texts (ground arith)) (simp texts (ground arith))
      (simp texts (ground arith))
      (λ n1 n2 n3 n4 n5 n6 n7.
        rw
          (
            n1,
            n2,
            n3,
            n4,
            n5,
            n6,
            n7,
            eq_flip "ask_customer" capability n2,
            eq_flip "record_lead" capability n5,
          )
          (simp texts (ground arith)))

-- The policy with this mode decides as is told.
AutomaticAt : BusinessRuntimePolicy → CustomerSalesContext → String → String → Type 0
AutomaticAt policy c capability mode =
    let p = record policy { ai_mode = mode } in
    is_allowed_text (
      if asks_in_open_sale p c capability
      then "allowed"
      else evaluate_policy_against_capability p capability)
    ≡ ((p.ai_mode == "restricted_auto")
        && not p.default_human_review
        && (replies_automatically p capability
            || sells_automatically p capability
            || asks_automatically p c.sales capability))

manual_never :
    (policy : BusinessRuntimePolicy) (c : CustomerSalesContext) (capability : String)
    → (policy.ai_mode == "restricted_auto") ≡ false
    → ((policy.ai_mode == "restricted_auto")
        && not policy.default_human_review
        && (replies_automatically policy capability
            || sells_automatically policy capability
            || asks_automatically policy c.sales capability))
      ≡ false
manual_never policy c capability m = rw m

fetched-automatic :
    (policy : BusinessRuntimePolicy) (c : CustomerSalesContext) (capability : String)
    → is_allowed_text (evaluate_fetched c capability (some policy)).decision
      ≡ is_automatic policy c capability
unfolding evaluate_fetched AutomaticAt
fetched-automatic policy c capability = elim (Bool-cases (c.ai_mode_override == "disabled")) [
  | inl off ↦ rw off denied_lem
  | inr on ↦ elim (Bool-cases (c.ai_mode_override == "draft_only")) [
    | inl draft ↦ rw (on, draft) approval_lem
    | inr live ↦ elim (Bool-cases (policy.ai_mode == "restricted_auto")) [
      | inl auto ↦
          rw (on, live)
            (subst (AutomaticAt policy c capability)
              (sym ((==_iff policy.ai_mode "restricted_auto").0 auto))
              (automatic_mode policy c.sales capability))
      | inr manual ↦
          let silent : asks_in_open_sale policy c capability ≡ false = ground (arith, manual) in
          rw (on, live)
            (rw silent (
              manual_mode policy capability manual ∙ sym (manual_never policy c capability manual)))
    ]
  ]
]

-- The policy decides that a proposal is allowed exactly when the context names a business whose policy
-- is found, the conversation keeps its AI on, the mode is restricted_auto without a default review, and
-- the capability is a message where replies are automatic, a lead or a draft where the workflow is on
-- and these are automatic, or a question in an open sale where the workflow is on.
pub evaluate-allows :
    (get_runtime_policy : String → Option BusinessRuntimePolicy) (d : CapabilityDecision)
    (context : Option CustomerSalesContext)
    → ((evaluate get_runtime_policy d context).decision == "allowed")
      ≡ allows get_runtime_policy d.capability context
unfolding evaluate is_allowed_text
evaluate-allows get_runtime_policy d none = refl
evaluate-allows get_runtime_policy d (some c) =
    elim (Bool-cases (trim_space c.business_reference == "")) [
      | inl blank ↦ rw blank
      | inr given ↦ rw given (by_policy (get_runtime_policy c.business_reference))
    ]
  where
    by_policy :
        (o : Option BusinessRuntimePolicy)
        → is_allowed_text (evaluate_fetched c d.capability o).decision
          ≡ allows_fetched c d.capability o
    by_policy none = refl
    by_policy (some policy) = fetched-automatic policy c d.capability
