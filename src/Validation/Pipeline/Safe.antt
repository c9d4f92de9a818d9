-- ===== src/Validation/Pipeline/Safe.antt =====
-- What the pipeline guarantees of a decision that it returns.
use mujeeb24_backend_go.Common.{
  ℕ, String, ◌==◌, ==_iff, ◌≡◌, refl, subst, Bool, true, false, ◌||◌, not, Option, none, some,
  Result, ok, err, ◌>>=◌, ◌>>◌, if◌then◌else◌, if-cases, Bool-cases, inl, inr, arith,
}
use mujeeb24_backend_go.Common.Text.{trim_space}
use mujeeb24_backend_go.Validation.{CapabilityDecision, CustomerSalesContext, EffectiveDecision}
use mujeeb24_backend_go.Validation.Policy.{PolicyDecision}
use mujeeb24_backend_go.Validation.Pipeline.{
  check_references, validate_structural, validate_references, validate_tenant, check_owners,
  is_policy_decision, closed_decision, evaluate_policy, evaluate_customer_sales_policy, bypasses,
  stamp, effective_of, authorized_by, authorize_with, authorize, validate, check_sales_evidence,
}
use mujeeb24_backend_go.Validation.Stage.{
  ValidationInput, StageFailure, ReferenceValidator, TenantValidator, ValidationPipeline, Checked,
}

pub >>-ok :
    {B : Type 0} (m : Checked) (k : Result StageFailure B) (b : B)
    → (m >> k) ≡ ok b
    → (m ≡ ok tt) × (k ≡ ok b)
>>-ok (ok tt) k b h = (refl, h)
>>-ok (err e) k b h = cc

pub check->> : (m k : Checked) → (m >> k) ≡ ok tt → k ≡ ok tt
check->> (ok tt) k h = h
check->> (err e) k h = cc

pub check->>_first : (m k : Checked) → (m >> k) ≡ ok tt → m ≡ ok tt
check->>_first (ok tt) k h = refl
check->>_first (err e) k h = cc

ok_injective :
    (a b : EffectiveDecision)
    → ◌≡◌ {A = Result StageFailure EffectiveDecision} (ok a) (ok b)
    → a ≡ b
ok_injective a b e = cc

abbrev pub is_allowed : EffectiveDecision → Bool
is_allowed d = d.policy_decision == "allowed"

abbrev pub has_service {ℓ} : {A : Type ℓ} → Option A → Bool
has_service none = false
has_service (some s) = true

-- The gate of a decision: the capability of the proposal, one of the three decisions, and a time of
-- authorization exactly if it is allowed.
abbrev pub Gated : ℕ → CapabilityDecision → EffectiveDecision → Type 0
Gated now d eff =
    (eff.capability ≡ d.capability)
    × (is_policy_decision eff.policy_decision ≡ true)
    × (eff.authorized_at ≡ (if is_allowed eff then some now else none))

-- The authorization does not allow what the policy did not.
abbrev pub Follows : EffectiveDecision → EffectiveDecision → Type 0
Follows decision eff = (not (is_allowed eff) || is_allowed decision) ≡ true

closed-is_policy_decision : (s : String) → is_policy_decision (closed_decision s) ≡ true
closed-is_policy_decision s =
    if-cases (is_policy_decision s) s "requires_approval" (λ t. is_policy_decision t ≡ true)
      (λ known. known) (λ other. refl)

authorized_by-Gated :
    (now : ℕ) (input : ValidationInput) (decision eff : EffectiveDecision)
    (answer : Result String EffectiveDecision)
    → authorized_by now input decision answer ≡ ok eff
    → Gated now input.decision eff × Follows decision eff
unfolding authorized_by
authorized_by-Gated now input decision eff (err e) h = cc
authorized_by-Gated now input decision eff (ok a) h =
    elim (Bool-cases (bypasses input decision a)) [
      | inl t ↦ cc (rw t at h)
      | inr f ↦
          subst (λ x. Gated now input.decision x × Follows decision x)
            (ok_injective (stamp now a) eff (rw f at h))
            (
              (
                ground (arith, f, ==_iff a.capability input.decision.capability),
                ground (arith, f),
                refl,
              ),
              ground (arith, f),
            )
    ]

authorize_with-Gated :
    (service : Option (ValidationInput → EffectiveDecision → Result String EffectiveDecision))
    (now : ℕ) (input : ValidationInput) (decision eff : EffectiveDecision)
    → authorize_with service now input decision ≡ ok eff
    → decision.capability ≡ input.decision.capability
    → is_policy_decision decision.policy_decision ≡ true
    → decision.authorized_at ≡ none
    → Gated now input.decision eff × Follows decision eff
unfolding authorize_with
authorize_with-Gated none now input decision eff h same known fresh =
    elim (Bool-cases (decision.policy_decision == "allowed")) [
      | inl t ↦
          subst (λ x. Gated now input.decision x × Follows decision x)
            (ok_injective (record decision { authorized_at = some now }) eff (rw t at h))
            ((same, known, rw t), rw t)
      | inr f ↦
          subst (λ x. Gated now input.decision x × Follows decision x)
            (ok_injective decision eff (rw f at h)) ((same, known, rw f fresh), rw f)
    ]
authorize_with-Gated (some service) now input decision eff h same known fresh =
    authorized_by-Gated now input decision eff (service input decision) h

pub effective_of-Gated :
    (service : Option (ValidationInput → EffectiveDecision → Result String EffectiveDecision))
    (now : ℕ) (input : ValidationInput) (result : PolicyDecision) (eff : EffectiveDecision)
    → authorize_with service now input (effective_of input result) ≡ ok eff
    → Gated now input.decision eff × Follows (effective_of input result) eff
effective_of-Gated service now input result eff h =
    authorize_with-Gated service now input (effective_of input result) eff h refl
      (closed-is_policy_decision (trim_space result.decision)) refl

by_policy :
    (policy : Option (CapabilityDecision → Option CustomerSalesContext → PolicyDecision))
    (p : ValidationPipeline) (input : ValidationInput) (eff : EffectiveDecision)
    → (evaluate_policy policy input >>= λ decision.
        authorize_with p.authorization_service p.now input decision)
      ≡ ok eff
    → (has_service policy ≡ true) × Gated p.now input.decision eff
unfolding evaluate_policy
by_policy none p input eff e = cc
by_policy (some f) p input eff e = (
  refl,
  (effective_of-Gated p.authorization_service p.now input (f input.decision input.context) eff e).0,
)

by_tenant :
    (tenant : Option TenantValidator) (input : ValidationInput)
    → check_owners tenant input ≡ ok tt
    → has_service tenant ≡ true
by_tenant none input e = cc
by_tenant (some t) input e = refl

by_reference :
    (validator : Option ReferenceValidator) (input : ValidationInput)
    → check_references validator input ≡ ok tt
    → has_service validator ≡ true
by_reference none input e = cc
by_reference (some v) input e = refl

-- The pipeline fails closed, and it gates what it returns: whatever the services, a decision is returned
-- only if the reference validator, the tenant validator and the policy are there; it has the capability
-- of the proposal and one of the three policy decisions, and a time of authorization, that of the call,
-- exactly if it is allowed.
pub validate-Gated :
    (p : ValidationPipeline) (input : ValidationInput) (eff : EffectiveDecision)
    → validate p input ≡ ok eff
    → (has_service p.reference_validator ≡ true)
      × (has_service p.tenant_validator ≡ true)
      × (has_service p.customer_sales_policy ≡ true)
      × Gated p.now input.decision eff
unfolding validate validate_references validate_tenant evaluate_customer_sales_policy authorize
validate-Gated p input eff h =
    let structural = >>-ok (validate_structural input.decision) _ eff h in
    let references = >>-ok (validate_references p input) _ eff structural.1 in
    let tenant = >>-ok (validate_tenant p input) _ eff references.1 in
    let policy = by_policy p.customer_sales_policy p input eff tenant.1 in
    let exposed =
      check->>
        (check_sales_evidence input.source_message_reference input.decision.sales input.context)
        (check_references p.reference_validator input) references.0 in
    (
      by_reference p.reference_validator input exposed,
      by_tenant p.tenant_validator input tenant.0,
      policy.0,
      policy.1,
    )
