-- ===== src/Tokens.antt =====
-- Token counts and what they cost: services/catalog_batch_budget.go and
-- services/native_provider_spend.go.
pub mod Exact
mod Tests
use mujeeb24_backend_go.Common.{
  ℕ, ◌+◌, ◌-◌, ◌*◌, ◌/◌, ◌^◌, String, ◌==◌, Bool, true, false, ◌&&◌, ◌||◌, not, Option, none, some,
  Result, ok, err, ltb, leb, eqb, if◌then◌else◌,
}
use mujeeb24_backend_go.Common.Int.{ℤ, pos, negsuc, leb_ℤ, ltb_ℤ, pos_part}
use mujeeb24_backend_go.Common.Text.{trim_space}

pub data BudgetError : Type 0 where
  not_positive : BudgetError
  cannot_reserve : ℕ → ℕ → ℕ → BudgetError

-- At least 2048 tokens are kept in reserve.
pub safety_tokens : ℕ → ℕ
safety_tokens window = if ltb (window / 10) 2048 then 2048 else window / 10

-- The test on integers, `contextWindow-maxOutputTokens <= safetyTokens`, with its terms moved.
pub reserve : ℕ → ℕ → Result BudgetError ℕ
reserve window output =
    let safety = safety_tokens window in
    if leb window (output + safety)
    then err (cannot_reserve window output safety)
    else ok (window - output - safety)

-- `NativeCatalogTokenBudget`
unfoldable pub native_catalog_token_budget : ℤ → ℤ → Result BudgetError ℕ
native_catalog_token_budget window output =
    if leb_ℤ window (pos 0) || leb_ℤ output (pos 0)
    then err not_positive
    else reserve (pos_part window) (pos_part output)

-- The fields of `ports.CustomerSalesUsageTelemetry` that are read.
pub record UsageTelemetry : Type 0 where
  pub provider : String
  pub model : String
  pub gateway_cost_known : Bool
  pub gateway_cost_usd : String
  pub input_tokens : ℤ
  pub cached_tokens : ℤ
  pub output_tokens : ℤ

-- A version of the prices, in riyals for a million tokens.
pub record AiProviderPricing : Type 0 where
  pub pricing_version : String
  pub input_per_million_yer : ℤ
  pub cached_input_per_million_yer : ℤ
  pub output_per_million_yer : ℤ

abbrev pub is_blank : String → Bool
is_blank s = trim_space s == ""

-- `nativeProviderSpend`: the version, the cost, the rate, and whether the pricing failed.
unfoldable pub native_provider_spend : UsageTelemetry → String → String × String × String × Bool
native_provider_spend usage fx_rate =
    if is_blank usage.provider
      || not usage.gateway_cost_known
      || is_blank usage.gateway_cost_usd
      || is_blank fx_rate
    then ("unknown", "", "", true)
    else ("native_provider_usd", usage.gateway_cost_usd, fx_rate, false)

abbrev pub is_negative : ℤ → Bool
is_negative n = ltb_ℤ n (pos 0)

abbrev pub is_unusable : UsageTelemetry → Bool
is_unusable usage =
    is_blank usage.provider
    || is_blank usage.model
    || is_negative usage.input_tokens
    || is_negative usage.cached_tokens
    || ltb_ℤ usage.input_tokens usage.cached_tokens
    || is_negative usage.output_tokens

abbrev pub is_invalid_pricing : AiProviderPricing → Bool
is_invalid_pricing version =
    is_blank version.pricing_version
    || leb_ℤ version.input_per_million_yer (pos 0)
    || is_negative version.cached_input_per_million_yer
    || leb_ℤ version.output_per_million_yer (pos 0)

-- The cost in millionths of a riyal. All quantities are known not to be negative here, and the
-- sum has no bound, as in `math/big`.
pub total_cost : UsageTelemetry → AiProviderPricing → ℕ
total_cost usage version =
    (pos_part usage.input_tokens - pos_part usage.cached_tokens)
      * pos_part version.input_per_million_yer
    + pos_part usage.cached_tokens * pos_part version.cached_input_per_million_yer
    + pos_part usage.output_tokens * pos_part version.output_per_million_yer

abbrev pub max_int : ℕ
max_int = 9223372036854775807

-- Rounded up to a whole riyal; a cost that is no `int` counts as unknown.
pub rounded : ℕ → String → ℕ × String × Bool
rounded total version =
    let cost = (total + 999999) / 1000000 in
    if ltb max_int cost then (0, "unknown", true) else (cost, version, false)

pub priced : UsageTelemetry → Result String AiProviderPricing → ℕ × String × Bool
priced usage (err e) = (0, "unknown", true)
priced usage (ok version) =
    if is_invalid_pricing version
    then (0, "unknown", true)
    else rounded (total_cost usage version) version.pricing_version

-- `usageProvider` of services/ai_usage_provider.go
abbrev pub usage_provider : String → String
usage_provider provider = trim_space provider

-- `nativeTokenPricedSpend`; the repository may be missing.
unfoldable pub native_token_priced_spend :
    Option (String → String → Result String AiProviderPricing) → UsageTelemetry → ℕ × String × Bool
native_token_priced_spend none usage = (0, "unknown", true)
native_token_priced_spend (some pricing) usage =
    if is_unusable usage
    then (0, "unknown", true)
    else priced usage (pricing (usage_provider usage.provider) usage.model)

-- The fields of a usage record that say what was spent.
pub record Spend : Type 0 where
  pub provider_cost_yer : ℕ
  pub pricing_version : String
  pub gateway_cost_usd : String
  pub gateway_fx_rate_yer : String
  pub status : String

abbrev pub settle_priced : String × String × String × Bool → ℕ × String × Bool → Spend
settle_priced (version, usd, rate, failed) (cost, priced_version, unknown) =
    if failed
    then (if unknown
        then record {
          provider_cost_yer = 0;
          pricing_version = version;
          gateway_cost_usd = usd;
          gateway_fx_rate_yer = rate;
          status = "pricing_failed";
        }
        else record {
          provider_cost_yer = cost;
          pricing_version = priced_version;
          gateway_cost_usd = usd;
          gateway_fx_rate_yer = rate;
          status = "success";
        })
    else record {
      provider_cost_yer = 0;
      pricing_version = version;
      gateway_cost_usd = usd;
      gateway_fx_rate_yer = rate;
      status = "success";
    }

-- The spend that `NativeMerchantUsageRecorder.Record` and `recordBatchUsage` store.
unfoldable pub settle :
    UsageTelemetry → String → Option (String → String → Result String AiProviderPricing) → Spend
settle usage fx_rate pricing =
    settle_priced (native_provider_spend usage fx_rate) (native_token_priced_spend pricing usage)

-- What a run unfolds.
unfoldable pub tokens_code : Unit {0}
unfolding safety_tokens reserve native_catalog_token_budget native_provider_spend total_cost rounded
    priced native_token_priced_spend settle trim_space
tokens_code = tt
