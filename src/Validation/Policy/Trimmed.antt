-- ===== src/Validation/Policy/Trimmed.antt =====
-- The decisions of the merchant's policy are texts without space around them.
use mujeeb24_backend_go.Common.{
  String, ◌==◌, ◌≡◌, refl, Bool, true, false, ◌&&◌, ◌||◌, not, Option, none, some, if◌then◌else◌,
  if-cases,
}
use mujeeb24_backend_go.Common.Text.{trim_space}
use mujeeb24_backend_go.Validation.{
  CapabilityDecision, CapabilityDefinition, CustomerSalesContext, capability_definition_for,
}
use mujeeb24_backend_go.Validation.Policy.{
  BusinessRuntimePolicy, PolicyDecision, evaluate, evaluate_fetched, policy_of, sales_policy,
  message_policy, asks_in_open_sale, evaluate_policy_against_capability,
}

-- The texts of the policy have no space around them.
Trimmed : String → Type 0
Trimmed s = trim_space s ≡ s

denied_lem : Trimmed "denied"
unfolding Trimmed trim_space
denied_lem = refl

approval_lem : Trimmed "requires_approval"
unfolding Trimmed trim_space
approval_lem = refl

allowed_lem : Trimmed "allowed"
unfolding Trimmed trim_space
allowed_lem = refl

Trimmed-if : (b : Bool) (x y : String) → Trimmed x → Trimmed y → Trimmed (if b then x else y)
Trimmed-if true x y p q = p
Trimmed-if false x y p q = q

Trimmed-policy :
    (policy : BusinessRuntimePolicy) (capability : String) (o : Option CapabilityDefinition)
    → Trimmed (policy_of policy capability o)
unfolding policy_of
Trimmed-policy policy capability none = denied_lem
Trimmed-policy policy capability (some d) =
    Trimmed-if (d.executor == "sales") (sales_policy policy capability) (message_policy policy d)
      (Trimmed-if _ "denied" _ denied_lem (
        Trimmed-if _ "requires_approval" _ approval_lem (
          Trimmed-if _ _ _
            (Trimmed-if policy.allow_auto_lead_creation "allowed" "requires_approval" allowed_lem
              approval_lem)
            (Trimmed-if policy.allow_auto_transaction_draft "allowed" "requires_approval"
              allowed_lem approval_lem))))
      (Trimmed-if (policy.ai_mode == "disabled") "denied" _ denied_lem (
        Trimmed-if ((policy.ai_mode == "assist") || (policy.ai_mode == "approval"))
          "requires_approval" _ approval_lem
          (Trimmed-if (policy.ai_mode == "restricted_auto") _ "requires_approval"
            (Trimmed-if policy.default_human_review "requires_approval" _ approval_lem (
              Trimmed-if (not d.terminal) "denied" _ denied_lem (
                Trimmed-if (d.sends_customer_message && policy.allow_auto_reply) "allowed"
                  "requires_approval" allowed_lem approval_lem)))
            approval_lem)))

Trimmed-fetched :
    (c : CustomerSalesContext) (capability : String) (o : Option BusinessRuntimePolicy)
    → Trimmed (evaluate_fetched c capability o).decision
unfolding evaluate_fetched evaluate_policy_against_capability
Trimmed-fetched c capability none = approval_lem
Trimmed-fetched c capability (some policy) =
    if-cases {A = PolicyDecision} (c.ai_mode_override == "disabled") _ _ (λ d. Trimmed d.decision)
      (λ off. denied_lem)
      (λ on.
        if-cases {A = PolicyDecision} (c.ai_mode_override == "draft_only") _ _
          (λ d. Trimmed d.decision) (λ draft. approval_lem)
          (λ live.
            Trimmed-if (asks_in_open_sale policy c capability) "allowed" _ allowed_lem
              (Trimmed-policy policy capability (capability_definition_for capability))))

Trimmed-evaluate :
    (get_runtime_policy : String → Option BusinessRuntimePolicy) (d : CapabilityDecision)
    (context : Option CustomerSalesContext)
    → Trimmed (evaluate get_runtime_policy d context).decision
unfolding evaluate
Trimmed-evaluate get_runtime_policy d none = approval_lem
Trimmed-evaluate get_runtime_policy d (some c) =
    if-cases {A = PolicyDecision} (trim_space c.business_reference == "") _ _
      (λ r. Trimmed r.decision) (λ blank. approval_lem)
      (λ given. Trimmed-fetched c d.capability (get_runtime_policy c.business_reference))

pub trim_space-evaluate :
    (get_runtime_policy : String → Option BusinessRuntimePolicy) (d : CapabilityDecision)
    (context : Option CustomerSalesContext)
    → trim_space (evaluate get_runtime_policy d context).decision
      ≡ (evaluate get_runtime_policy d context).decision
unfolding Trimmed
trim_space-evaluate get_runtime_policy d context = Trimmed-evaluate get_runtime_policy d context
