-- ===== src/Providers/OpenAi/Compat.antt =====
-- internal/providers/openai.go: getOpenAICompat, what a service supports.
use pi_go_coding_agent.Base.{
  String, Bool, true, false, Option, none, some, ◌==◌, ◌&&◌, ◌||◌, not, if◌then◌else◌,
}
use pi_go_coding_agent.Base.Text.{equal_fold}
use pi_go_coding_agent.Types.{Json, bool, str, Fields, lookup_field}
use pi_go_coding_agent.Config.Models.{Model}
use pi_go_coding_agent.Config.Models.Search.{contains_fold}

pub record Compat : Type 0 where
  pub supports_store : Bool
  pub supports_developer_role : Bool
  pub supports_reasoning_effort : Bool
  pub max_tokens_field : String
  pub requires_tool_result_name : Bool
  pub requires_assistant_after_tool_result : Bool
  pub requires_thinking_as_text : Bool
  pub requires_mistral_tool_ids : Bool
  pub supports_strict_mode : Bool

value_at : String → Option Fields → Option Json
value_at key none = none
value_at key (some fields) = lookup_field key fields

bool_field_or : Bool → Option Json → Bool
bool_field_or b none = b
bool_field_or b (some j) = elim j [ bool v ↦ v | _ ↦ b ]

text_field_or : String → Option Json → String
text_field_or s none = s
text_field_or s (some j) = elim j [ str v ↦ (if v == "" then s else v) | _ ↦ s ]

is_zai : Model → Bool
is_zai m = equal_fold m.provider "zai" || contains_fold m.base_url "api.z.ai"

is_mistral : Model → Bool
is_mistral m = equal_fold m.provider "mistral" || contains_fold m.base_url "mistral.ai"

is_grok : Model → Bool
is_grok m = equal_fold m.provider "xai" || contains_fold m.base_url "api.x.ai"

is_non_standard : Model → Bool
unfolding is_zai is_mistral is_grok
is_non_standard m =
    equal_fold m.provider "cerebras"
    || contains_fold m.base_url "cerebras.ai"
    || is_grok m
    || is_mistral m
    || contains_fold m.base_url "chutes.ai"
    || contains_fold m.base_url "deepseek.com"
    || is_zai m
    || equal_fold m.provider "opencode"
    || contains_fold m.base_url "opencode.ai"

-- What the provider and the address of a model say
unfoldable pub detected_compat : Model → Compat
unfolding is_non_standard
detected_compat m = record {
  supports_store = not (is_non_standard m);
  supports_developer_role = not (is_non_standard m);
  supports_reasoning_effort = not (is_grok m) && not (is_zai m);
  max_tokens_field =
      if is_mistral m || contains_fold m.base_url "chutes.ai"
      then "max_tokens"
      else "max_completion_tokens";
  requires_tool_result_name = is_mistral m;
  requires_assistant_after_tool_result = false;
  requires_thinking_as_text = is_mistral m;
  requires_mistral_tool_ids = is_mistral m;
  supports_strict_mode = true;
}

-- What models.json overrides
unfoldable pub override_compat : Option Fields → Compat → Compat
unfolding value_at bool_field_or text_field_or
override_compat fields c = record {
  supports_store = bool_field_or c.supports_store (value_at "supportsStore" fields);
  supports_developer_role =
      bool_field_or c.supports_developer_role (value_at "supportsDeveloperRole" fields);
  supports_reasoning_effort =
      bool_field_or c.supports_reasoning_effort (value_at "supportsReasoningEffort" fields);
  max_tokens_field = text_field_or c.max_tokens_field (value_at "maxTokensField" fields);
  requires_tool_result_name =
      bool_field_or c.requires_tool_result_name (value_at "requiresToolResultName" fields);
  requires_assistant_after_tool_result =
      bool_field_or c.requires_assistant_after_tool_result
        (value_at "requiresAssistantAfterToolResult" fields);
  requires_thinking_as_text =
      bool_field_or c.requires_thinking_as_text (value_at "requiresThinkingAsText" fields);
  requires_mistral_tool_ids =
      bool_field_or c.requires_mistral_tool_ids (value_at "requiresMistralToolIds" fields);
  supports_strict_mode =
      bool_field_or c.supports_strict_mode (value_at "supportsStrictMode" fields);
}

-- getOpenAICompat
unfoldable pub get_open_ai_compat : Model → Compat
unfolding detected_compat override_compat
get_open_ai_compat m = override_compat m.compat (detected_compat m)
