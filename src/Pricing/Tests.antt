-- ===== src/Pricing/Tests.antt =====
-- Prices and models of the built-in table, and the theorems at concrete requests.
use autocontribute.Base.{◌≤◌, ◌≡◌, refl, true, String, [], ◌∷◌, arith}
use autocontribute.Base.Dict.{Dict}
use autocontribute.Errors.{ok}
use autocontribute.Pricing.Table.{ModelUsage, openai, anthropic, claude_haiku_5_5}
use autocontribute.Pricing.Bounds.{
  tier_rates, cost, upper_bound_cost, IsPriced, cost-le-upper_bound_cost,
}
use autocontribute.Pricing.Resolve.{has_key}

abbrev usage_of : ModelUsage
usage_of = record {
  input_tokens = 90_000;
  cached_input_tokens = 60_000;
  cache_write_tokens = 10_000;
  output_tokens = 2_000;
  reasoning_tokens = 500;
  total_tokens = 92_000;
}

haiku-IsPriced : IsPriced claude_haiku_5_5
haiku-IsPriced = omega arith

-- 20,000 * $0.10 + 60,000 * $0.01 + 10,000 * $0.125 + 2,000 * $0.50, per million
haiku_cost : cost claude_haiku_5_5 usage_of ≡ ok 485_000_000
unfolding cost tier_rates
haiku_cost = refl

-- The reservation's 120,000 input tokens are in the long-context tier, the usage is not.
cost-le-upper_bound_cost_example :
    (c : _) × (cost claude_haiku_5_5 usage_of ≡ ok c)
    × (c ≤ upper_bound_cost claude_haiku_5_5 120_000 4_000)
cost-le-upper_bound_cost_example =
    cost-le-upper_bound_cost claude_haiku_5_5 usage_of 120_000 4_000 haiku-IsPriced (omega arith)
      (omega arith) (omega arith)

abbrev both_keys : Dict String
both_keys = ("OPENAI_API_KEY", "sk-a") ∷ ("ANTHROPIC_API_KEY", "sk-b") ∷ []

has_both : (has_key both_keys openai ≡ true) × (has_key both_keys anthropic ≡ true)
unfolding has_key
has_both = (refl, refl)
