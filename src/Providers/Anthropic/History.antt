-- ===== src/Providers/Anthropic/History.antt =====
-- internal/providers/anthropic.go: anthropicMessagesFromContext and anthropicTools. `random` gives what
-- randomOpenAIID draws, by the number of the call.
use pi_go_coding_agent.Base.{ℕ, suc, String, Bool, List, [], ◌∷◌, ◌++◌, some, ◌==◌, if◌then◌else◌}
use pi_go_coding_agent.Base.Text.{trim_space, ◌^^◌}
use pi_go_coding_agent.Types.{
  user, assistant, tool, other, text, thinking, tool_call, ContentBlock, Message, Tool, Fields,
}
use pi_go_coding_agent.Config.Models.{Model}
use pi_go_coding_agent.Providers.Transform.{transform_messages}
use pi_go_coding_agent.Providers.OpenAi.Ids.{sanitize_id}
use pi_go_coding_agent.Providers.OpenAi.Messages.{ModelContext, message_text}
use pi_go_coding_agent.Providers.OpenAi.Chat.{transform_target, or_no_output}
use pi_go_coding_agent.Base.Strings.{take_bytes}

-- normalizeAnthropicToolCallID
unfoldable pub normalize_anthropic_id : String → String
normalize_anthropic_id id = if id == "" then id else take_bytes 64 (sanitize_id id)

pub data AnthropicPart : Type 0 where
  text_part : String → AnthropicPart
  -- with its signature
  thinking_part : String → String → AnthropicPart
  tool_use : (id name : String) → Fields → AnthropicPart
  tool_result : (id content : String) → Bool → AnthropicPart

-- A message of the request: its role, and its parts
pub record AnthropicMessage : Type 0 where
  pub role : String
  pub content : List AnthropicPart

pub record AnthropicTool : Type 0 where
  pub name : String
  pub description : String
  pub input_schema : Fields

-- anthropicTools; no tools are left out of the request.
unfoldable pub anthropic_tools : List Tool → List AnthropicTool
anthropic_tools [] = []
anthropic_tools (t ∷ ts) =
    record { name = t.name; description = t.description; input_schema = t.parameters }
    ∷ anthropic_tools ts

unfoldable pub thinking_parts : ContentBlock → List AnthropicPart
thinking_parts b =
    if trim_space b.thoughts == ""
    then []
    else if b.thinking_sig == ""
    then text_part b.thoughts ∷ []
    else thinking_part b.thoughts b.thinking_sig ∷ []

unfoldable pub result_part : Message → AnthropicPart
result_part m = tool_result m.tool_call_id (or_no_output (message_text m)) m.is_error

-- The results that wait, as one message of the user
unfoldable pub flush : List AnthropicPart → List AnthropicMessage
flush [] = []
flush (p ∷ ps) = record { role = "user"; content = p ∷ ps } ∷ []

unfoldable pub or_text : Message → List AnthropicPart → List AnthropicPart
or_text m [] = text_part (message_text m) ∷ []
or_text m (p ∷ ps) = p ∷ ps

module _ (random : ℕ → String) where
  -- The part of a block, and the number of the next call of the random source
  unfoldable pub block_part : ContentBlock → ℕ → List AnthropicPart × ℕ
  unfolding thinking_parts
  block_part b n = elim b.type [
    | text ↦ (text_part b.body ∷ [], n)
    | thinking ↦ (thinking_parts b, n)
    | tool_call ↦
        if b.id == ""
        then (tool_use ("tool_" ^^ random n) b.name b.arguments ∷ [], suc n)
        else (tool_use b.id b.name b.arguments ∷ [], n)
    | other t ↦ ([], n)
  ]

  unfoldable pub block_parts : List ContentBlock → ℕ → List AnthropicPart × ℕ
  unfolding block_part
  block_parts [] n = ([], n)
  block_parts (b ∷ bs) n =
      let (front, n₁) = block_part b n in let (back, n₂) = block_parts bs n₁ in (front ++ back, n₂)

  -- The loop over the transformed history; the results of tools that follow each other wait for the
  -- first message of another role.
  unfoldable pub anthropic_loop : List Message → List AnthropicPart → ℕ → List AnthropicMessage
  unfolding flush result_part block_parts or_text
  anthropic_loop [] waiting n = flush waiting
  anthropic_loop (m ∷ ms) waiting n = elim m.role [
    | tool ↦ anthropic_loop ms (waiting ++ result_part m ∷ []) n
    | user ↦
        flush waiting
        ++ record { role = "user"; content = text_part (message_text m) ∷ [] }
          ∷ anthropic_loop ms [] n
    | assistant ↦
        let (parts, n') = block_parts m.content n in
        flush waiting
        ++ record { role = "assistant"; content = or_text m parts } ∷ anthropic_loop ms [] n'
    | other r ↦ flush waiting ++ anthropic_loop ms [] n
  ]

  -- anthropicMessagesFromContext; the time is that of transformMessages.
  unfoldable pub anthropic_messages_from_context : ℕ → ModelContext → Model → List AnthropicMessage
  unfolding anthropic_loop
  anthropic_messages_from_context now ctx model =
      anthropic_loop
        (transform_messages now (some normalize_anthropic_id) (transform_target model) ctx.messages)
        [] 0
