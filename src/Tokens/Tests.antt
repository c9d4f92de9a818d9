-- ===== src/Tokens/Tests.antt =====
-- Budgets and costs on small numbers, and the theorems at them.
use mujeeb24_backend_go.Common.{String, ◌≡◌, refl, false, some, Result, ok, err}
use mujeeb24_backend_go.Common.Int.{pos}
use mujeeb24_backend_go.Tokens.{
  UsageTelemetry, AiProviderPricing, cannot_reserve, native_catalog_token_budget,
  native_token_priced_spend, settle, tokens_code,
}
use mujeeb24_backend_go.Tokens.Exact.{
  BudgetResult, native_catalog_token_budget_lem, SettledBy, settle-SettledBy,
}

abbrev usage : UsageTelemetry
usage = record {
  provider = "gemini";
  model = "flash";
  gateway_cost_known = false;
  gateway_cost_usd = "";
  input_tokens = pos 1000;
  cached_tokens = pos 400;
  output_tokens = pos 10;
}

abbrev prices : String → String → Result String AiProviderPricing
prices provider model = ok (record {
  pricing_version = "v1";
  input_per_million_yer = pos 3000;
  cached_input_per_million_yer = pos 0;
  output_per_million_yer = pos 20000;
})

leaves_budget : native_catalog_token_budget (pos 32000) (pos 4000) ≡ ok 24800
unfolding tokens_code
leaves_budget = refl

lacks_room : native_catalog_token_budget (pos 6000) (pos 4000) ≡ err (cannot_reserve 6000 4000 2048)
unfolding tokens_code
lacks_room = refl

native_catalog_token_budget_example :
    BudgetResult (pos 32000) (pos 4000) (native_catalog_token_budget (pos 32000) (pos 4000))
native_catalog_token_budget_example = native_catalog_token_budget_lem (pos 32000) (pos 4000)

-- 600 * 3000 + 10 * 20000 millionths are two riyals.
costs_two : native_token_priced_spend (some prices) usage ≡ (2, "v1", false)
unfolding tokens_code
costs_two = refl

settle-SettledBy_example : SettledBy usage "530" (some prices) (settle usage "530" (some prices))
settle-SettledBy_example = settle-SettledBy usage "530" (some prices)
