-- ===== src/Pricing/Resolve.antt =====
-- resolve_model, resolve_critic, _table_model: which model a role runs on.
use autocontribute.Base.{
  String, Option, none, some, ◌≡◌, ◌≢◌, Bool, true, false, not, ◌&&◌, str_eq, arith, if◌then◌else◌,
}
use autocontribute.Base.Dict.{Dict, lookup}
use autocontribute.Errors.{configuration_error, Result, ok, err}
use autocontribute.Pricing.Table.{
  Provider, openai, anthropic, TierRole, ModelSpec, models, role_models, api_key_envs,
}

-- `environ.get(API_KEY_ENVS[provider])` as a condition: set and not empty
set_and_filled : Option String → Bool
set_and_filled none = false
set_and_filled (some value) = not (str_eq value "")

unfoldable pub has_key : Dict String → Provider → Bool
unfolding set_and_filled
has_key environ provider = set_and_filled (lookup (api_key_envs provider) environ)

unfoldable pub table_model : String → Result ModelSpec
table_model name = elim (lookup name models) [
  | none ↦ err configuration_error
  | some spec ↦ ok spec
]

-- `_AUTO_PROVIDER_ORDER` is anthropic, then openai.
unfoldable pub resolve_model : String → TierRole → Dict String → Result ModelSpec
resolve_model name role environ =
    if str_eq name "auto"
    then (if has_key environ anthropic
        then ok (role_models anthropic role)
        else (if has_key environ openai
            then ok (role_models openai role)
            else err configuration_error))
    else table_model name

abbrev other_provider : Provider → Provider
other_provider anthropic = openai
other_provider openai = anthropic

unfoldable pub resolve_critic : String → ModelSpec → Dict String → Result ModelSpec
resolve_critic name agent environ =
    let other = other_provider agent.provider in
    if not (str_eq name "auto")
    then table_model name
    else (if has_key environ agent.provider && has_key environ other
        then ok (role_models other TierRole.agent)
        else ok agent)

-- With both providers' keys set and the critic's model left to `auto`, the critic is resolved and
-- its provider is not the agent's, so no change is reviewed by a model of the provider that wrote it.
pub resolve_critic_independent :
    (agent : ModelSpec) (environ : Dict String)
    → has_key environ openai ≡ true
    → has_key environ anthropic ≡ true
    → (critic : ModelSpec) × (resolve_critic "auto" agent environ ≡ ok critic)
      × (critic.provider ≢ agent.provider)
unfolding resolve_critic
resolve_critic_independent agent environ o a =
    (role_models (other_provider agent.provider) TierRole.agent, ground arith, ground arith)

resolve_model-has_key :
    (role : TierRole) (environ : Dict String) (spec : ModelSpec)
    → resolve_model "auto" role environ ≡ ok spec
    → has_key environ spec.provider ≡ true
unfolding resolve_model
resolve_model-has_key role environ spec h = ground arith

-- Whenever the agent's model and the critic's model are both resolved from `auto`, the API key of
-- each one's provider is set.
pub auto_models-has_key :
    (environ : Dict String) (agent critic : ModelSpec)
    → resolve_model "auto" TierRole.agent environ ≡ ok agent
    → resolve_critic "auto" agent environ ≡ ok critic
    → (has_key environ agent.provider ≡ true) × (has_key environ critic.provider ≡ true)
unfolding resolve_critic
auto_models-has_key environ agent critic ha hc =
    let keyed = resolve_model-has_key TierRole.agent environ agent ha in (keyed, ground arith)
