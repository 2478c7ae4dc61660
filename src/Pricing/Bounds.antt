-- ===== src/Pricing/Bounds.antt =====
-- The price of a request in units of 1e-11 USD, and why a reservation bounds it.
use autocontribute.Base.{
  ℕ, ◌+◌, ◌-◌, ◌*◌, ◌≤◌, ◌<◌, max, ◌≡◌, ◌↔◌, Option, none, some, arith, ltb, if◌then◌else◌, All,
}
use native.Mathlib.Nat.{mul-le-mul, mul-le-mul_left, mul-le-mul_right}
use autocontribute.Errors.{value_error, Result, ok, err}
use autocontribute.Pricing.Table.{ModelUsage, Rates, LongContextTier, ModelSpec, models}

tier_or : Option LongContextTier → ℕ → Rates → Rates
tier_or none input_tokens standard = standard
tier_or (some tier) input_tokens standard =
    if ltb tier.above_input_tokens input_tokens then tier.rates else standard

unfoldable pub tier_rates : ModelSpec → ℕ → Rates
unfolding tier_or
tier_rates spec input_tokens = tier_or spec.long_context input_tokens spec.standard

-- The source divides by the million tokens that its rates are per; here they are per token.
unfoldable pub cost : ModelSpec → ModelUsage → Result ℕ
cost spec usage =
    let cached = usage.cached_input_tokens in
    let written = usage.cache_write_tokens in
    let rates = tier_rates spec usage.input_tokens in
    if ltb usage.input_tokens (cached + written)
    then err value_error
    else ok (
        (usage.input_tokens - cached - written) * rates.input
        + cached * rates.cached_input
        + written * rates.cache_write
        + usage.output_tokens * rates.output)

abbrev input_rate : Rates → ℕ
input_rate rates = max rates.input (max rates.cached_input rates.cache_write)

unfoldable pub upper_bound_cost : ModelSpec → ℕ → ℕ → ℕ
upper_bound_cost spec input_tokens output_tokens =
    let rates = tier_rates spec input_tokens in
    input_tokens * input_rate rates + output_tokens * rates.output

-- Every rate of the long-context tier is at least the standard one, and output is never free.
abbrev IsAbove : Rates → Rates → Type 0
IsAbove high low =
    (low.input ≤ high.input)
    × (low.cached_input ≤ high.cached_input)
    × (low.cache_write ≤ high.cache_write)
    × (low.output ≤ high.output)

abbrev IsTiered : Option LongContextTier → Rates → Type 0
IsTiered none standard = Unit
IsTiered (some tier) standard = IsAbove tier.rates standard

pub record IsPriced (spec : ModelSpec) : Type 0 where
  pub tiered : IsTiered spec.long_context spec.standard
  pub billed : 0 < spec.standard.output

-- Every model of the built-in table has long-context rates at least its standard rates, and an
-- output rate above zero.
pub models-IsPriced : All (λ entry. IsPriced entry.1) models
models-IsPriced = omega arith

-- More input never lowers a rate.
tier_rates_mono :
    (spec : ModelSpec) (m n : ℕ)
    → IsPriced spec
    → m ≤ n
    → IsAbove (tier_rates spec n) (tier_rates spec m)
unfolding tier_rates
tier_rates_mono spec m n p le = ground arith

-- Four products, each bounded factor by factor.
sum_of_products :
    (a b c d ra rb rc rd n o r s : ℕ)
    → a + b + c ≤ n
    → d ≤ o
    → ra ≤ r
    → rb ≤ r
    → rc ≤ r
    → rd ≤ s
    → a * ra + b * rb + c * rc + d * rd ≤ n * r + o * s
sum_of_products a b c d ra rb rc rd n o r s hn ho ha hb hc hd = omega (
  arith,
  mul-le-mul_left a ha,
  mul-le-mul_left b hb,
  mul-le-mul_left c hc,
  mul-le-mul ho hd,
  mul-le-mul_right r hn,
)

-- The reservation's price bounds the price of any usage within its tokens: if the model's rates
-- are in order, the usage's cached and cache-write tokens are counted in its input tokens, and its
-- input and output are at most the reserved input and output, then `cost` succeeds and is at most
-- `upper_bound_cost` of the reserved tokens, in whichever tier each of the two falls.
pub cost-le-upper_bound_cost :
    (spec : ModelSpec) (usage : ModelUsage) (input_tokens output_tokens : ℕ)
    → IsPriced spec
    → usage.cached_input_tokens + usage.cache_write_tokens ≤ usage.input_tokens
    → usage.input_tokens ≤ input_tokens
    → usage.output_tokens ≤ output_tokens
    → (c : ℕ) × (cost spec usage ≡ ok c) × (c ≤ upper_bound_cost spec input_tokens output_tokens)
unfolding cost upper_bound_cost
cost-le-upper_bound_cost spec usage n o p parts hn ho =
    let (hi, hc, hw, hr) = tier_rates_mono spec usage.input_tokens n p hn in
    let high = tier_rates spec n in
    let low = tier_rates spec usage.input_tokens in
    let c = usage.cached_input_tokens in
    let w = usage.cache_write_tokens in
    (
      (usage.input_tokens - c - w) * low.input
          + c * low.cached_input
          + w * low.cache_write
          + usage.output_tokens * low.output,
      ground arith,
      sum_of_products (usage.input_tokens - c - w) c w usage.output_tokens low.input
          low.cached_input low.cache_write low.output n o (input_rate high) high.output
          (omega arith) ho (omega arith) (omega arith) (omega arith) hr,
    )

-- `cost` raises ValueError exactly when the cached and cache-write tokens exceed the input.
pub cost-eq-err :
    (spec : ModelSpec) (usage : ModelUsage)
    → (cost spec usage ≡ err value_error)
      ↔ (usage.input_tokens < usage.cached_input_tokens + usage.cache_write_tokens)
unfolding cost
cost-eq-err spec usage = (λ h. ground arith, λ h. ground arith)

-- For a model whose rates are in order a larger reservation never costs less: the price grows with
-- the input, across the tier's edge too, and with the output.
pub upper_bound_cost_mono :
    (spec : ModelSpec) (m n o r : ℕ)
    → IsPriced spec
    → m ≤ n
    → o ≤ r
    → upper_bound_cost spec m o ≤ upper_bound_cost spec n r
unfolding upper_bound_cost
upper_bound_cost_mono spec m n o r p hn ho =
    let (hi, hc, hw, hr) = tier_rates_mono spec m n p hn in
    let high = tier_rates spec n in
    let low = tier_rates spec m in
    let hmax : input_rate low ≤ input_rate high = omega arith in
    omega (arith, mul-le-mul hn hmax, mul-le-mul ho hr)

-- The price splits into the input's part and the output's.
pub upper_bound_cost-split :
    (spec : ModelSpec) (n o : ℕ)
    → upper_bound_cost spec n o ≡ upper_bound_cost spec n 0 + o * (tier_rates spec n).output
unfolding upper_bound_cost
upper_bound_cost-split spec n o = omega arith
