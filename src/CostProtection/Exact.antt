-- ===== src/CostProtection/Exact.antt =====
-- When an automatic reply may start.
use mujeeb24_backend_go.Common.{
  ℕ, ◌≤◌, ◌<◌, String, ◌==◌, ◌≡◌, refl, ◌↔◌, Bool, true, false, ◌&&◌, List, [], ◌∷◌, Option, none,
  some, Result, ok, err, ◌>>=◌, ◌>>◌, arith, if◌then◌else◌,
}
use mujeeb24_backend_go.Common.Int.{pos, leb_ℤ, ltb_ℤ}
use mujeeb24_backend_go.Common.Text.{to_lower}
use mujeeb24_backend_go.CostProtection.{
  Subscription, AiUsage, GuardError, business_ai_disabled, guard_failed, AiCostProtectionService,
  provider_admin_disabled, check_runtime, guard_reason, check_guard, active_subscription,
  check_period, usage_of, check_usage, check_entitlement, check_wired, check_service, verdict,
  is_ai_execution_allowed,
}

-- The platform's switch is on.
abbrev pub RuntimeEnabled : Option (Result String String) → Type 0
RuntimeEnabled none = ⊥
RuntimeEnabled (some (err e)) = ⊥
RuntimeEnabled (some (ok state)) = (state == provider_admin_disabled) ≡ false

-- The guard, if there is one, lets the business through.
abbrev pub GuardPasses : Option (String → Result GuardError (Unit {0})) → String → Type 0
GuardPasses none business_id = Unit
GuardPasses (some guard) business_id = guard business_id ≡ ok tt

-- The first active subscription covers this moment, has replies left if they are limited, and its
-- budget is not exceeded.
abbrev pub Entitled :
    Option (String → Result String (List Subscription))
    → Option (String → Result String AiUsage)
    → ℕ
    → String
    → Type 0
Entitled (some list) (some usage) now business_id =
    (s : Subscription) × (rest : List Subscription) × (u : AiUsage) × (list business_id
      ≡ ok (s ∷ rest))
    × (s.period_start ≤ now)
    × (now < s.period_end)
    × (usage s.id ≡ ok u)
    × ((ltb_ℤ (pos 0) u.ai_reply_limit && leb_ℤ u.ai_replies_remaining (pos 0)) ≡ false)
    × ((to_lower u.budget_status == "exceeded") ≡ false)
Entitled _ _ now business_id = ⊥

abbrev pub Allowed : Option AiCostProtectionService → String → Type 0
Allowed none business_id = ⊥
Allowed (some s) business_id =
    RuntimeEnabled s.platform_operations
    × GuardPasses s.business_ai_guard business_id
    × Entitled s.subscriptions s.ai_usage s.now business_id

check_runtime_iff :
    (o : Option (Result String String)) → (check_runtime o ≡ ok tt) ↔ RuntimeEnabled o
unfolding check_runtime
check_runtime_iff none = (λ e. cc, λ f. absurd f)
check_runtime_iff (some (err e)) = (λ e. cc, λ f. absurd f)
check_runtime_iff (some (ok state)) = (λ e. ground arith, λ f. rw f refl)

guard_reason_iff : (r : Result GuardError (Unit {0})) → (guard_reason r ≡ ok tt) ↔ (r ≡ ok tt)
unfolding guard_reason
guard_reason_iff (ok u) = (λ e. refl, λ f. refl)
guard_reason_iff (err business_ai_disabled) = (λ e. cc, λ f. cc)
guard_reason_iff (err (guard_failed e)) = (λ e'. cc, λ f. cc)

check_guard_iff :
    (o : Option (String → Result GuardError (Unit {0}))) (business_id : String)
    → (check_guard o business_id ≡ ok tt) ↔ GuardPasses o business_id
unfolding check_guard
check_guard_iff none business_id = (λ e. tt, λ f. refl)
check_guard_iff (some guard) business_id = guard_reason_iff (guard business_id)

check_period_iff :
    (now : ℕ) (s : Subscription)
    → (check_period now s ≡ ok tt) ↔ ((s.period_start ≤ now) × (now < s.period_end))
unfolding check_period
check_period_iff now s = (λ e. ground arith, λ f. ground arith)

refusals_iff :
    (a b : Bool) (x y : String)
    → (◌≡◌ {A = Result String (Unit {0})} (if a then err x else if b then err y else ok tt) (ok tt))
      ↔ ((a ≡ false) × (b ≡ false))
refusals_iff true b x y = (λ e. cc, λ f. cc)
refusals_iff false true x y = (λ e. cc, λ f. cc)
refusals_iff false false x y = (λ e. (refl, refl), λ f. refl)

check_usage_iff :
    (u : AiUsage)
    → (check_usage u ≡ ok tt) ↔ (
        ((ltb_ℤ (pos 0) u.ai_reply_limit && leb_ℤ u.ai_replies_remaining (pos 0)) ≡ false)
        × ((to_lower u.budget_status == "exceeded") ≡ false))
unfolding check_usage
check_usage_iff u =
    refusals_iff (ltb_ℤ (pos 0) u.ai_reply_limit && leb_ℤ u.ai_replies_remaining (pos 0))
      (to_lower u.budget_status == "exceeded") "ai_replies_exhausted" "ai_cost_budget_exceeded"

-- A chain of checks passes exactly when each does.
then_iff : (m n : Result String (Unit {0})) → ((m >> n) ≡ ok tt) ↔ ((m ≡ ok tt) × (n ≡ ok tt))
then_iff (ok u) n = (λ e. (refl, e), λ f. f.1)
then_iff (err x) n = (λ e. cc, λ f. cc)

check_entitlement_iff :
    (list : String → Result String (List Subscription)) (usage : String → Result String AiUsage)
    (now : ℕ) (business_id : String)
    → (check_entitlement list usage now business_id ≡ ok tt)
      ↔ Entitled (some list) (some usage) now business_id
unfolding check_entitlement active_subscription usage_of
check_entitlement_iff list usage now business_id = (
  passed (list business_id) refl,
  λ (s, rest, u, l, before, after, e, replies, budget). rw l (
      (then_iff (check_period now s) (usage_of (usage s.id) >>= check_usage)).1 (
        (check_period_iff now s).1 (before, after),
        rw e ((check_usage_iff u).1 (replies, budget)),
      )),
)
  where
    with_usage :
        (s : Subscription) (rest : List Subscription)
        → list business_id ≡ ok (s ∷ rest)
        → (s.period_start ≤ now) × (now < s.period_end)
        → (r : Result String AiUsage) → usage s.id ≡ r
        → (usage_of r >>= check_usage) ≡ ok tt
        → Entitled (some list) (some usage) now business_id
    with_usage s rest l period (err x) e f = cc
    with_usage s rest l period (ok u) e f =
        let (replies, budget) = (check_usage_iff u).0 f in
        (s, rest, u, l, period.0, period.1, e, replies, budget)

    passed :
        (r : Result String (List Subscription))
        → list business_id ≡ r
        → (active_subscription r >>= λ s.
            check_period now s >> (usage_of (usage s.id) >>= check_usage))
          ≡ ok tt
        → Entitled (some list) (some usage) now business_id
    passed (err x) l f = cc
    passed (ok []) l f = cc
    passed (ok (s ∷ rest)) l f =
        let (period, fine) =
          (then_iff (check_period now s) (usage_of (usage s.id) >>= check_usage)).0 f in
        with_usage s rest l ((check_period_iff now s).0 period) (usage s.id) refl fine

check_wired_iff :
    (list : Option (String → Result String (List Subscription)))
    (usage : Option (String → Result String AiUsage)) (now : ℕ) (business_id : String)
    → (check_wired list usage now business_id ≡ ok tt) ↔ Entitled list usage now business_id
unfolding check_wired
check_wired_iff (some list) (some usage) now business_id =
    check_entitlement_iff list usage now business_id
check_wired_iff (some list) none now business_id = (λ e. cc, λ f. absurd f)
check_wired_iff none usage now business_id = (λ e. cc, λ f. absurd f)

check_service_iff :
    (s : AiCostProtectionService) (business_id : String)
    → (check_service s business_id ≡ ok tt) ↔ Allowed (some s) business_id
unfolding check_service
check_service_iff s business_id =
    let wired = check_wired s.subscriptions s.ai_usage s.now business_id in
    let guard = check_guard s.business_ai_guard business_id in
    (
      λ e.
          let (runtime, rest) =
            (then_iff (check_runtime s.platform_operations) (guard >> wired)).0 e in
          let (passes, entitled) = (then_iff guard wired).0 rest in
          (
            (check_runtime_iff s.platform_operations).0 runtime,
            (check_guard_iff s.business_ai_guard business_id).0 passes,
            (check_wired_iff s.subscriptions s.ai_usage s.now business_id).0 entitled,
          ),
      λ (runtime, passes, entitled).
          (then_iff (check_runtime s.platform_operations) (guard >> wired)).1 (
            (check_runtime_iff s.platform_operations).1 runtime,
            (then_iff guard wired).1 (
              (check_guard_iff s.business_ai_guard business_id).1 passes,
              (check_wired_iff s.subscriptions s.ai_usage s.now business_id).1 entitled,
            ),
          ),
    )

verdict_iff : (r : Result String (Unit {0})) → ((verdict r).0 ≡ true) ↔ (r ≡ ok tt)
verdict_iff (ok u) = (λ e. refl, λ f. refl)
verdict_iff (err x) = (λ e. cc, λ f. cc)

-- An automatic reply may start exactly when the service exists, the platform's switch is known and
-- on, the guard of the business passes if it is wired, both repositories are wired and answer, the
-- first active subscription covers this moment, its replies are not used up if they are limited,
-- and its budget is not exceeded.
pub is_ai_execution_allowed_iff :
    (s : Option AiCostProtectionService) (business_id : String)
    → ((is_ai_execution_allowed s business_id).0 ≡ true) ↔ Allowed s business_id
unfolding is_ai_execution_allowed
is_ai_execution_allowed_iff none business_id = (λ e. cc, λ f. absurd f)
is_ai_execution_allowed_iff (some s) business_id = (
  λ e. (check_service_iff s business_id).0 ((verdict_iff (check_service s business_id)).0 e),
  λ f. (verdict_iff (check_service s business_id)).1 ((check_service_iff s business_id).1 f),
)
