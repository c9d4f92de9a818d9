-- ===== src/CostProtection/Tests.antt =====
-- The checks on a subscription that runs from 10 to 20.
use mujeeb24_backend_go.Common.{◌≡◌, refl, ◌↔◌, true, false, [], ◌∷◌, none, some, ok}
use mujeeb24_backend_go.Common.Int.{pos}
use mujeeb24_backend_go.CostProtection.{
  AiCostProtectionService, is_ai_execution_allowed, protection_code,
}
use mujeeb24_backend_go.CostProtection.Exact.{Allowed, is_ai_execution_allowed_iff}

abbrev service : AiCostProtectionService
service = record {
  platform_operations = some (ok "ENABLED");
  business_ai_guard = none;
  subscriptions = some (λ b. ok (record { id = "s"; period_start = 10; period_end = 20 } ∷ []));
  ai_usage = some (λ s.
      ok (record { ai_reply_limit = pos 5; ai_replies_remaining = pos 1; budget_status = "ok" }));
  now = 10;
}

allows : is_ai_execution_allowed (some service) "b1" ≡ (true, "")
unfolding protection_code
allows = refl

refuses_at_the_end :
    is_ai_execution_allowed (some (record service { now = 20 })) "b1"
    ≡ (false, "active_subscription_period_invalid")
unfolding protection_code
refuses_at_the_end = refl

refuses_budget :
    is_ai_execution_allowed
      (some (record service {
        ai_usage = some (λ s. ok (record {
          ai_reply_limit = pos 0;
          ai_replies_remaining = pos 0;
          budget_status = "Exceeded";
        }));
      }))
      "b1"
    ≡ (false, "ai_cost_budget_exceeded")
unfolding protection_code
refuses_budget = refl

is_ai_execution_allowed_iff_example :
    ((is_ai_execution_allowed (some service) "b1").0 ≡ true) ↔ Allowed (some service) "b1"
is_ai_execution_allowed_iff_example = is_ai_execution_allowed_iff (some service) "b1"
