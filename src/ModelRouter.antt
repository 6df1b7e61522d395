-- ===== src/ModelRouter.antt =====
-- packages/model-router/src/index.ts: which model runs a task. The process environment is a
-- parameter.
use jean_bot.Common.{
  String, Bool, true, false, Option, [], ◌∷◌, if◌then◌else◌, ◌==◌, string_eq, or_default, template,
}
use jean_bot.Types.{Capability, RiskLevel, risk_level_eq}

pub record ModelSelection : Type 0 where
  pub provider : String
  pub model : String
  pub reason : String

-- The variables `JEANBOT_MODEL_PROVIDER` and `OLLAMA_MODEL`.
pub record ProviderEnvironment : Type 0 where
  pub model_provider : Option String
  pub ollama_model : Option String

unfoldable pub should_prefer_ollama : ProviderEnvironment → Bool
should_prefer_ollama env = or_default env.model_provider "" == "ollama"

unfoldable pub apply_provider_preference : ProviderEnvironment → ModelSelection → ModelSelection
unfolding should_prefer_ollama
apply_provider_preference env selection =
    if should_prefer_ollama env
    then record {
      provider = "ollama";
      model = or_default env.ollama_model "glm-5:cloud";
      reason = template (
          selection.reason
          ∷ " JeanBot routed this task to Ollama because the environment prefers Ollama-backed execution."
          ∷ []);
    }
    else selection

unfoldable pub is_high_reasoning : Capability → Bool
is_high_reasoning Capability.planning = true
is_high_reasoning Capability.orchestration = true
is_high_reasoning Capability.software_development = true
is_high_reasoning Capability.data_analysis = true
is_high_reasoning Capability.research = true
is_high_reasoning _ = false

unfoldable pub select_model : ProviderEnvironment → RiskLevel → Capability → Bool → ModelSelection
unfolding apply_provider_preference is_high_reasoning
select_model env risk capability latency_sensitive = apply_provider_preference env (
    if risk == RiskLevel.critical
    then record {
      provider = "anthropic";
      model = "claude-opus-4-6";
      reason = "Critical-risk tasks require the highest reasoning budget.";
    }
    else if is_high_reasoning capability
    then record {
      provider = "anthropic";
      model = if latency_sensitive then "claude-haiku-4-5" else "claude-sonnet-4-6";
      reason =
          "High-complexity tasks benefit from Claude Sonnet's stronger planning and synthesis.";
    }
    else record {
      provider = "anthropic";
      model = "claude-haiku-4-5";
      reason = "Default route optimized for balanced latency and cost with Claude Haiku.";
    })
