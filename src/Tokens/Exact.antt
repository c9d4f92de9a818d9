-- ===== src/Tokens/Exact.antt =====
-- The budget is what is left of the window, and a cost is rounded up and never lost.
use mujeeb24_backend_go.Common.{
  not, ℕ, ◌+◌, ◌-◌, ◌*◌, ◌/◌, ◌≤◌, ◌<◌, String, ◌≡◌, refl, ◌⊎◌, inl, inr, Bool, true, false, ◌||◌,
  Option, none, some, Result, ok, err, arith, ltb, leb, if-cases, if◌then◌else◌,
}
use mujeeb24_backend_go.Common.Int.{ℤ, pos, negsuc, leb_ℤ, pos_part, ◌≤ℤ◌}
use mujeeb24_backend_go.Tokens.{
  BudgetError, not_positive, cannot_reserve, safety_tokens, reserve, native_catalog_token_budget,
  UsageTelemetry, AiProviderPricing, is_unusable, is_invalid_pricing, total_cost, max_int, rounded,
  priced, native_token_priced_spend, is_blank, native_provider_spend, Spend, settle_priced, settle,
  usage_provider,
}

-- The budget is positive, and with the output and the reserve it makes up the window.
abbrev pub BudgetResult : ℤ → ℤ → Result BudgetError ℕ → Type 0
BudgetResult window output (ok budget) =
    (0 < budget)
    × (pos_part window ≡ budget + pos_part output + safety_tokens (pos_part window))
    × (2048 ≤ safety_tokens (pos_part window))
    × (pos_part window / 10 ≤ safety_tokens (pos_part window))
BudgetResult window output (err not_positive) = (window ≤ℤ pos 0) ⊎ (output ≤ℤ pos 0)
BudgetResult window output (err (cannot_reserve w o safety)) =
    (pos w ≡ window)
    × (pos o ≡ output)
    × (w ≤ o + safety)
    × ((safety ≡ 2048) ⊎ (safety ≡ w / 10))
    × (2048 ≤ safety)
    × (w / 10 ≤ safety)

reserve-BudgetResult : (w o : ℕ) → BudgetResult (pos w) (pos o) (reserve w o)
unfolding reserve safety_tokens
reserve-BudgetResult w o =
    if-cases (leb w (o + safety_tokens w)) (err (cannot_reserve w o (safety_tokens w)))
      (ok (w - o - safety_tokens w)) (BudgetResult (pos w) (pos o))
      (λ e. (refl, refl, ground arith, by_tenth (ltb (w / 10) 2048), ground arith, ground arith))
      (λ e. (ground arith, ground arith, ground arith, ground arith))
  where
    by_tenth :
        (small : Bool)
        → ((if small then 2048 else w / 10) ≡ 2048) ⊎ ((if small then 2048 else w / 10) ≡ w / 10)
    by_tenth true = inl refl
    by_tenth false = inr refl

-- A budget for a catalog request is positive, and makes up the context window with the output and
-- a reserve of at least 2048 tokens and at least a tenth of the window. It is refused only if one of
-- the two is not positive, or no more than the output and such a reserve fits into the window, where the
-- reserve is one of the two amounts.
pub native_catalog_token_budget_lem :
    (window output : ℤ) → BudgetResult window output (native_catalog_token_budget window output)
unfolding native_catalog_token_budget
native_catalog_token_budget_lem (negsuc n) output =
    if-cases (leb_ℤ (negsuc n) (pos 0) || leb_ℤ output (pos 0)) (err not_positive)
      (reserve 0 (pos_part output)) (BudgetResult (negsuc n) output) (λ e. inl (omega arith))
      (λ e. ground arith)
native_catalog_token_budget_lem (pos w) (negsuc n) =
    if-cases (leb_ℤ (pos w) (pos 0) || leb_ℤ (negsuc n) (pos 0)) (err not_positive) (reserve w 0)
      (BudgetResult (pos w) (negsuc n)) (λ e. inr (omega arith)) (λ e. ground arith)
native_catalog_token_budget_lem (pos w) (pos o) =
    if-cases (leb_ℤ (pos w) (pos 0) || leb_ℤ (pos o) (pos 0)) (err not_positive) (reserve w o)
      (BudgetResult (pos w) (pos o)) (λ e. ground arith) (λ e. reserve-BudgetResult w o)

-- The cost is the total in whole riyals, rounded up, and an `int`.
abbrev pub RoundsUp : ℕ → ℕ → Type 0
RoundsUp total cost =
    (total ≤ cost * 1000000) × (cost * 1000000 < total + 1000000) × (cost ≤ max_int)

-- A price that the repository has for the provider and the model.
abbrev pub PricedBy :
    Option (String → String → Result String AiProviderPricing)
    → UsageTelemetry
    → ℕ
    → String
    → Type 0
PricedBy none usage cost version = ⊥
PricedBy (some pricing) usage cost version =
    (v : AiProviderPricing) × (pricing (usage_provider usage.provider) usage.model ≡ ok v)
    × (v.pricing_version ≡ version)
    × (is_unusable usage ≡ false)
    × (is_invalid_pricing v ≡ false)
    × RoundsUp (total_cost usage v) cost

-- No price gives a cost: there is no repository, or the usage cannot be priced, or the repository has no
-- price, or that price is not valid, or the cost is no `int`.
abbrev pub Unpriced :
    Option (String → String → Result String AiProviderPricing) → UsageTelemetry → Type 0
Unpriced none usage = Unit
Unpriced (some pricing) usage =
    (is_unusable usage ≡ true)
    ⊎ ((e : String) × (pricing (usage_provider usage.provider) usage.model ≡ err e))
    ⊎ ((v : AiProviderPricing) × (pricing (usage_provider usage.provider) usage.model ≡ ok v)
        × ((is_invalid_pricing v ≡ true) ⊎ (max_int < (total_cost usage v + 999999) / 1000000)))

abbrev PricedResult :
    Option (String → String → Result String AiProviderPricing)
    → UsageTelemetry
    → ℕ × String × Bool
    → Type 0
PricedResult pricing usage (cost, version, true) = Unpriced pricing usage
PricedResult pricing usage (cost, version, false) = PricedBy pricing usage cost version

RoundsUp_lem :
    (total : ℕ)
    → ltb max_int ((total + 999999) / 1000000) ≡ false
    → RoundsUp total ((total + 999999) / 1000000)
RoundsUp_lem total e = (omega arith, omega arith, ground arith)

rounded-PricedResult :
    (pricing : String → String → Result String AiProviderPricing) (usage : UsageTelemetry)
    (v : AiProviderPricing)
    → pricing (usage_provider usage.provider) usage.model ≡ ok v
    → is_unusable usage ≡ false
    → is_invalid_pricing v ≡ false
    → PricedResult (some pricing) usage (rounded (total_cost usage v) v.pricing_version)
unfolding rounded
rounded-PricedResult pricing usage v e usable valid =
    let cost = (total_cost usage v + 999999) / 1000000 in
    if-cases (ltb max_int cost) (0, "unknown", true) (cost, v.pricing_version, false)
      (PricedResult (some pricing) usage) (λ t. inr (inr (v, e, inr (ground arith))))
      (λ t. (v, e, refl, usable, valid, RoundsUp_lem (total_cost usage v) t))

priced-PricedResult :
    (pricing : String → String → Result String AiProviderPricing) (usage : UsageTelemetry)
    (r : Result String AiProviderPricing)
    → pricing (usage_provider usage.provider) usage.model ≡ r
    → is_unusable usage ≡ false
    → PricedResult (some pricing) usage (priced usage r)
unfolding priced
priced-PricedResult pricing usage (err x) e usable = inr (inl (x, e))
priced-PricedResult pricing usage (ok v) e usable =
    if-cases (is_invalid_pricing v) (0, "unknown", true)
      (rounded (total_cost usage v) v.pricing_version) (PricedResult (some pricing) usage)
      (λ invalid. inr (inr (v, e, inl invalid)))
      (λ valid. rounded-PricedResult pricing usage v e usable valid)

native_token_priced_spend-PricedResult :
    (pricing : Option (String → String → Result String AiProviderPricing)) (usage : UsageTelemetry)
    → PricedResult pricing usage (native_token_priced_spend pricing usage)
unfolding native_token_priced_spend
native_token_priced_spend-PricedResult none usage = tt
native_token_priced_spend-PricedResult (some pricing) usage =
    if-cases (is_unusable usage) (0, "unknown", true)
      (priced usage (pricing (usage_provider usage.provider) usage.model))
      (PricedResult (some pricing) usage) (λ unusable. inl unusable)
      (λ usable. priced-PricedResult pricing usage _ refl usable)

-- The provider did not verify a cost that can be counted.
abbrev pub is_unverified : UsageTelemetry → String → Bool
is_unverified usage fx_rate =
    is_blank usage.provider
    || not usage.gateway_cost_known
    || is_blank usage.gateway_cost_usd
    || is_blank fx_rate

-- A spend is what the provider verified, or what a price gives, or it failed and counts nothing.
abbrev pub SettledBy :
    UsageTelemetry
    → String
    → Option (String → String → Result String AiProviderPricing)
    → Spend
    → Type 0
SettledBy usage fx_rate pricing s =
    ((s.status ≡ "success")
      × (s.provider_cost_yer ≡ 0)
      × (s.gateway_cost_usd ≡ usage.gateway_cost_usd)
      × (s.gateway_fx_rate_yer ≡ fx_rate)
      × (is_unverified usage fx_rate ≡ false))
    ⊎ ((is_unverified usage fx_rate ≡ true)
        × (s.gateway_cost_usd ≡ "")
        × (s.gateway_fx_rate_yer ≡ "")
        × (((s.status ≡ "success") × PricedBy pricing usage s.provider_cost_yer s.pricing_version)
            ⊎ ((s.status ≡ "pricing_failed")
                × (s.provider_cost_yer ≡ 0)
                × (s.pricing_version ≡ "unknown")
                × Unpriced pricing usage)))

unverified-SettledBy :
    (usage : UsageTelemetry) (fx_rate : String)
    (pricing : Option (String → String → Result String AiProviderPricing)) (p : ℕ × String × Bool)
    → is_unverified usage fx_rate ≡ true
    → PricedResult pricing usage p
    → SettledBy usage fx_rate pricing (settle_priced ("unknown", "", "", true) p)
unverified-SettledBy usage fx_rate pricing (cost, version, true) u r =
    inr (u, refl, refl, inr (refl, refl, refl, r))
unverified-SettledBy usage fx_rate pricing (cost, version, false) u r =
    inr (u, refl, refl, inl (refl, r))

-- What is stored of a usage is what the provider verified, in dollars with the rate that was configured
-- and no cost in riyals, exactly if a provider, its cost and the rate are there; else a cost in riyals
-- without dollars, which a valid price of the repository gives, rounded up to a whole riyal; and it is a
-- failed pricing that counts nothing only if no price gives such a cost: there is no repository, the usage
-- cannot be priced, no price is found, the price is not valid, or the cost is no int. So nothing is counted
-- twice and no cost is lost.
pub settle-SettledBy :
    (usage : UsageTelemetry) (fx_rate : String)
    (pricing : Option (String → String → Result String AiProviderPricing))
    → SettledBy usage fx_rate pricing (settle usage fx_rate pricing)
unfolding settle native_provider_spend
settle-SettledBy usage fx_rate pricing =
    let p = native_token_priced_spend pricing usage in
    if-cases (is_unverified usage fx_rate) ("unknown", "", "", true)
      ("native_provider_usd", usage.gateway_cost_usd, fx_rate, false)
      (λ g. SettledBy usage fx_rate pricing (settle_priced g p))
      (λ e.
        unverified-SettledBy usage fx_rate pricing p e
          (native_token_priced_spend-PricedResult pricing usage))
      (λ e. inl (refl, refl, refl, refl, e))
