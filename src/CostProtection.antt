-- ===== src/CostProtection.antt =====
-- `AICostProtectionService` of services/ai_cost_protection_service.go: whether an automatic reply
-- may start.
-- A dependency that is not wired is `none`; otherwise it answers, or fails with a text. The clock is
-- a number, and so are the two ends of a period.
pub mod Exact
mod Tests
use mujeeb24_backend_go.Common.{
  ℕ, String, ◌==◌, Bool, true, false, ◌&&◌, ◌||◌, not, List, [], ◌∷◌, Option, none, some, Result,
  ok, err, ◌>>=◌, ◌>>◌, ltb, leb, if◌then◌else◌,
}
use mujeeb24_backend_go.Common.Int.{ℤ, pos, leb_ℤ, ltb_ℤ}
use mujeeb24_backend_go.Common.Text.{to_lower}

-- The fields of `ports.SubscriptionRecord` that are read.
pub record Subscription : Type 0 where
  pub id : String
  pub period_start : ℕ
  pub period_end : ℕ

-- The fields of the usage of a subscription that are read.
pub record AiUsage : Type 0 where
  pub ai_reply_limit : ℤ
  pub ai_replies_remaining : ℤ
  pub budget_status : String

-- `ErrBusinessAIDisabled`, and every other error of the guard.
pub data GuardError : Type 0 where
  business_ai_disabled : GuardError
  guard_failed : String → GuardError

pub record AiCostProtectionService : Type 0 where
  pub platform_operations : Option (Result String String)
  pub business_ai_guard : Option (String → Result GuardError (Unit {0}))
  pub subscriptions : Option (String → Result String (List Subscription))
  pub ai_usage : Option (String → Result String AiUsage)
  pub now : ℕ

abbrev pub provider_admin_disabled : String
provider_admin_disabled = "DISABLED"

-- Each check returns, or stops with the reason of the refusal.
pub check_runtime : Option (Result String String) → Result String (Unit {0})
check_runtime none = err "ai_runtime_state_unavailable"
check_runtime (some (err e)) = err "ai_runtime_state_unavailable"
check_runtime (some (ok admin_state)) =
    if admin_state == provider_admin_disabled then err "ai_runtime_disabled" else ok tt

pub guard_reason : Result GuardError (Unit {0}) → Result String (Unit {0})
guard_reason (ok u) = ok tt
guard_reason (err business_ai_disabled) = err "business_ai_disabled"
guard_reason (err (guard_failed e)) = err "business_ai_policy_unavailable"

pub check_guard : Option (String → Result GuardError (Unit {0})) → String → Result String (Unit {0})
check_guard none business_id = ok tt
check_guard (some guard) business_id = guard_reason (guard business_id)

-- `Subscriptions.List` for the active ones, of which the first counts.
pub active_subscription : Result String (List Subscription) → Result String Subscription
active_subscription (err e) = err "subscription_check_unavailable"
active_subscription (ok []) = err "active_subscription_required"
active_subscription (ok (s ∷ ss)) = ok s

pub check_period : ℕ → Subscription → Result String (Unit {0})
check_period now s =
    if ltb now s.period_start || not (ltb now s.period_end)
    then err "active_subscription_period_invalid"
    else ok tt

pub usage_of : Result String AiUsage → Result String AiUsage
usage_of (err e) = err "ai_usage_check_unavailable"
usage_of (ok usage) = ok usage

pub check_usage : AiUsage → Result String (Unit {0})
check_usage usage =
    if ltb_ℤ (pos 0) usage.ai_reply_limit && leb_ℤ usage.ai_replies_remaining (pos 0)
    then err "ai_replies_exhausted"
    else if to_lower usage.budget_status == "exceeded"
    then err "ai_cost_budget_exceeded"
    else ok tt

-- The checks of the subscription and of its usage, with both repositories wired.
pub check_entitlement :
    (String → Result String (List Subscription))
    → (String → Result String AiUsage)
    → ℕ
    → String
    → Result String (Unit {0})
check_entitlement list usage now business_id = active_subscription (list business_id) >>= λ s.
    check_period now s >> (usage_of (usage s.id) >>= check_usage)

pub check_wired :
    Option (String → Result String (List Subscription))
    → Option (String → Result String AiUsage)
    → ℕ
    → String
    → Result String (Unit {0})
check_wired (some list) (some usage) now business_id = check_entitlement list usage now business_id
check_wired (some list) none now business_id = err "ai_cost_protection_unavailable"
check_wired none usage now business_id = err "ai_cost_protection_unavailable"

pub check_service : AiCostProtectionService → String → Result String (Unit {0})
check_service s business_id =
    check_runtime s.platform_operations
    >> (check_guard s.business_ai_guard business_id
        >> check_wired s.subscriptions s.ai_usage s.now business_id)

abbrev pub verdict : Result String (Unit {0}) → Bool × String
verdict (ok u) = (true, "")
verdict (err reason) = (false, reason)

-- `IsAIExecutionAllowed`; the receiver may be nil.
unfoldable pub is_ai_execution_allowed : Option AiCostProtectionService → String → Bool × String
is_ai_execution_allowed none business_id = (false, "ai_cost_protection_unavailable")
is_ai_execution_allowed (some s) business_id = verdict (check_service s business_id)

-- What a run of the checks unfolds.
unfoldable pub protection_code : Unit {0}
unfolding check_runtime guard_reason check_guard active_subscription check_period usage_of
    check_usage check_entitlement check_wired check_service is_ai_execution_allowed to_lower
protection_code = tt
