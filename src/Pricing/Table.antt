-- ===== src/Pricing/Table.antt =====
-- The records of pricing.py and its built-in table of models.
use autocontribute.Base.{ℕ, String, Option, none, some, List, [], ◌∷◌}
use autocontribute.Base.Dict.{Dict}

pub data Provider : Type 0 where
  openai anthropic : Provider

pub data Role : Type 0 where
  agent critic setup triage : Role

-- The roles whose auto model is a tier of the auto provider; the critic follows the agent.
pub data TierRole : Type 0 where
  agent setup triage : TierRole

pub data Effort : Type 0 where
  low medium high xhigh max_effort : Effort

pub record ModelUsage : Type 0 where
  pub input_tokens : ℕ
  pub cached_input_tokens : ℕ
  pub cache_write_tokens : ℕ
  pub output_tokens : ℕ
  pub reasoning_tokens : ℕ
  pub total_tokens : ℕ

pub record Rates : Type 0 where
  pub input : ℕ
  pub cached_input : ℕ
  pub cache_write : ℕ
  pub output : ℕ

pub record LongContextTier : Type 0 where
  pub above_input_tokens : ℕ
  pub rates : Rates

pub record ModelSpec : Type 0 where
  pub id : String
  pub provider : Provider
  pub context_tokens : ℕ
  pub max_output_tokens : ℕ
  pub efforts : List Effort
  pub response_models : List String
  pub standard : Rates
  pub long_context : Option LongContextTier

-- `_usd`, from hundred-thousandths of a dollar per million tokens
abbrev pub usd : ℕ → ℕ → ℕ → ℕ → Rates
usd input_rate cached_input_rate cache_write_rate output_rate = record {
  input = input_rate;
  cached_input = cached_input_rate;
  cache_write = cache_write_rate;
  output = output_rate;
}

abbrev pub all_efforts : List Effort
all_efforts = Effort.low ∷ Effort.medium ∷ Effort.high ∷ Effort.xhigh ∷ Effort.max_effort ∷ []

abbrev long_tier : ℕ → Rates → Option LongContextTier
long_tier above rates = some (record { above_input_tokens = above; rates = rates })

abbrev pub gpt_5_6_sol : ModelSpec
gpt_5_6_sol = record {
  id = "gpt-5.6-sol";
  provider = openai;
  context_tokens = 1_050_000;
  max_output_tokens = 128_000;
  efforts = all_efforts;
  response_models = "gpt-5.6-sol" ∷ [];
  standard = usd 500_000 50_000 625_000 3_000_000;
  long_context = long_tier 272_000 (usd 1_000_000 100_000 1_250_000 4_500_000);
}

abbrev pub gpt_5_6_terra : ModelSpec
gpt_5_6_terra = record {
  id = "gpt-5.6-terra";
  provider = openai;
  context_tokens = 1_050_000;
  max_output_tokens = 128_000;
  efforts = all_efforts;
  response_models = "gpt-5.6-terra" ∷ [];
  standard = usd 200_000 20_000 250_000 1_200_000;
  long_context = long_tier 272_000 (usd 400_000 40_000 500_000 1_800_000);
}

abbrev pub gpt_5_6_luna : ModelSpec
gpt_5_6_luna = record {
  id = "gpt-5.6-luna";
  provider = openai;
  context_tokens = 400_000;
  max_output_tokens = 128_000;
  efforts = all_efforts;
  response_models = "gpt-5.6-luna" ∷ [];
  standard = usd 20_000 2_000 25_000 120_000;
  long_context = long_tier 272_000 (usd 40_000 4_000 50_000 180_000);
}

abbrev pub gpt_5_5 : ModelSpec
gpt_5_5 = record {
  id = "gpt-5.5";
  provider = openai;
  context_tokens = 1_050_000;
  max_output_tokens = 128_000;
  efforts = Effort.low ∷ Effort.medium ∷ Effort.high ∷ Effort.xhigh ∷ [];
  response_models = "gpt-5.5" ∷ "gpt-5.5-2026-04-23" ∷ [];
  standard = usd 500_000 50_000 500_000 3_000_000;
  long_context = long_tier 272_000 (usd 1_000_000 100_000 1_000_000 4_500_000);
}

abbrev pub claude_opus_5_5 : ModelSpec
claude_opus_5_5 = record {
  id = "claude-opus-5-5";
  provider = anthropic;
  context_tokens = 1_000_000;
  max_output_tokens = 128_000;
  efforts = all_efforts;
  response_models = "claude-opus-5-5" ∷ [];
  standard = usd 400_000 20_000 500_000 2_000_000;
  long_context = none;
}

abbrev pub claude_sonnet_5_5 : ModelSpec
claude_sonnet_5_5 = record {
  id = "claude-sonnet-5-5";
  provider = anthropic;
  context_tokens = 1_000_000;
  max_output_tokens = 128_000;
  efforts = all_efforts;
  response_models = "claude-sonnet-5-5" ∷ [];
  standard = usd 200_000 20_000 250_000 1_000_000;
  long_context = none;
}

abbrev pub claude_haiku_5_5 : ModelSpec
claude_haiku_5_5 = record {
  id = "claude-haiku-5-5";
  provider = anthropic;
  context_tokens = 1_000_000;
  max_output_tokens = 128_000;
  efforts = all_efforts;
  response_models = "claude-haiku-5-5" ∷ [];
  standard = usd 10_000 1_000 12_500 50_000;
  long_context = long_tier 100_000 (usd 50_000 5_000 62_500 250_000);
}

-- `_SPECS`, as the `MODELS` mapping from each model's id
abbrev pub models : Dict ModelSpec
models =
    ("gpt-5.6-sol", gpt_5_6_sol)
    ∷ ("gpt-5.6-terra", gpt_5_6_terra)
    ∷ ("gpt-5.6-luna", gpt_5_6_luna)
    ∷ ("gpt-5.5", gpt_5_5)
    ∷ ("claude-opus-5-5", claude_opus_5_5)
    ∷ ("claude-sonnet-5-5", claude_sonnet_5_5)
    ∷ ("claude-haiku-5-5", claude_haiku_5_5)
    ∷ []

-- `ROLE_MODELS`, with each id read in `MODELS`
abbrev pub role_models : Provider → TierRole → ModelSpec
role_models openai agent = gpt_5_6_sol
role_models openai setup = gpt_5_6_terra
role_models openai triage = gpt_5_6_luna
role_models anthropic agent = claude_opus_5_5
role_models anthropic setup = claude_sonnet_5_5
role_models anthropic triage = claude_haiku_5_5

abbrev pub api_key_envs : Provider → String
api_key_envs openai = "OPENAI_API_KEY"
api_key_envs anthropic = "ANTHROPIC_API_KEY"

-- `TURN_OUTPUT_CAPS`
abbrev pub turn_output_caps : Provider → Role → ℕ
turn_output_caps openai Role.agent = 32_000
turn_output_caps openai Role.critic = 32_000
turn_output_caps openai Role.setup = 16_000
turn_output_caps openai Role.triage = 4_000
turn_output_caps anthropic Role.agent = 64_000
turn_output_caps anthropic Role.critic = 64_000
turn_output_caps anthropic Role.setup = 16_000
turn_output_caps anthropic Role.triage = 4_000
