-- ===== src/Providers/Bedrock/History.antt =====
-- internal/providers/bedrock.go: bedrockMessagesFromContext and bedrockToolConfig. `random` gives what
-- randomShortID draws, by the number of the call. Parameters of a tool that have no field stand for the
-- nil map.
use pi_go_coding_agent.Base.{
  ℕ, suc, String, Bool, List, [], ◌∷◌, ◌++◌, Option, none, some, map, ◌==◌, if◌then◌else◌,
}
use pi_go_coding_agent.Base.Text.{trim_space, ◌^^◌}
use pi_go_coding_agent.Base.Strings.{take_bytes}
use pi_go_coding_agent.Types.{
  user, assistant, tool, other, text, thinking, tool_call, ContentBlock, Message, Tool, Fields, end,
  field, str, obj, is_empty_fields,
}
use pi_go_coding_agent.Config.Models.{Model}
use pi_go_coding_agent.Providers.Transform.{transform_messages}
use pi_go_coding_agent.Providers.OpenAi.Ids.{sanitize_id, text_or}
use pi_go_coding_agent.Providers.OpenAi.Messages.{ModelContext, message_text}
use pi_go_coding_agent.Providers.OpenAi.Chat.{transform_target}

-- normalizeBedrockToolCallID
unfoldable pub normalize_bedrock_id : String → String
normalize_bedrock_id id = if id == "" then id else take_bytes 64 (sanitize_id id)

pub data BedrockBlock : Type 0 where
  said : String → BedrockBlock
  tool_use : (id name : String) → Fields → BedrockBlock
  -- whether the tool failed stands last
  tool_result : (id : String) → List String → Bool → BedrockBlock

pub record BedrockMessage : Type 0 where
  pub role : String
  pub content : List BedrockBlock

pub record BedrockTool : Type 0 where
  pub name : String
  pub description : Option String
  pub schema : Fields

bedrock_tool : Tool → BedrockTool
bedrock_tool t = record {
  name = t.name;
  description = if trim_space t.description == "" then none else some (trim_space t.description);
  schema =
      if is_empty_fields t.parameters
      then field "type" (str "object") (field "properties" (obj end) end)
      else t.parameters;
}

-- bedrockToolConfig
unfoldable pub bedrock_tool_config : List Tool → List BedrockTool
unfolding bedrock_tool
bedrock_tool_config tools = map bedrock_tool tools

said_unless_empty : String → List BedrockBlock
said_unless_empty s = if s == "" then [] else said s ∷ []

message_unless_empty : String → List BedrockBlock → List BedrockMessage
message_unless_empty role [] = []
message_unless_empty role (b ∷ bs) = record { role = role; content = b ∷ bs } ∷ []

result_texts : List ContentBlock → List String
result_texts [] = []
result_texts (b ∷ bs) = elim b.type [ text ↦ b.body ∷ result_texts bs | _ ↦ result_texts bs ]

or_no_text : List String → List String
or_no_text [] = "(no output)" ∷ []
or_no_text (s ∷ ss) = s ∷ ss

module _ (random : ℕ → String) where
  -- An identifier, or a new one where it is empty, and the number of the next call of the source
  unfoldable pub id_or_new : String → ℕ → String × ℕ
  id_or_new id n = if id == "" then ("tool_" ^^ random n, suc n) else (id, n)

  history_block : ContentBlock → ℕ → List BedrockBlock × ℕ
  unfolding said_unless_empty id_or_new
  history_block b n = elim b.type [
    | text ↦ (said_unless_empty b.body, n)
    | thinking ↦ (said_unless_empty b.thoughts, n)
    | tool_call ↦
        let (id, n') = id_or_new b.id n in
        (tool_use id (text_or b.name "tool") b.arguments ∷ [], n')
    | other t ↦ ([], n)
  ]

  history_blocks : List ContentBlock → ℕ → List BedrockBlock × ℕ
  unfolding history_block
  history_blocks [] n = ([], n)
  history_blocks (b ∷ bs) n =
      let (front, n₁) = history_block b n in
      let (back, n₂) = history_blocks bs n₁ in (front ++ back, n₂)

  result_block : Message → ℕ → BedrockBlock × ℕ
  unfolding result_texts or_no_text id_or_new
  result_block m n =
      let (id, n') = id_or_new m.tool_call_id n in
      (tool_result id (or_no_text (result_texts m.content)) m.is_error, n')

  -- The loop over the transformed history; the results of tools that follow each other wait for the
  -- first message of another role.
  unfoldable pub bedrock_loop : List Message → List BedrockBlock → ℕ → List BedrockMessage
  unfolding message_unless_empty history_blocks result_block said_unless_empty
  bedrock_loop [] waiting n = message_unless_empty "user" waiting
  bedrock_loop (m ∷ ms) waiting n = elim m.role [
    | tool ↦ let (b, n') = result_block m n in bedrock_loop ms (waiting ++ b ∷ []) n'
    | user ↦
        message_unless_empty "user" waiting
        ++ message_unless_empty "user" (said_unless_empty (message_text m))
        ++ bedrock_loop ms [] n
    | assistant ↦
        let (blocks, n') = history_blocks m.content n in
        message_unless_empty "user" waiting
        ++ message_unless_empty "assistant" blocks
        ++ bedrock_loop ms [] n'
    | other r ↦ message_unless_empty "user" waiting ++ bedrock_loop ms [] n
  ]

  -- bedrockMessagesFromContext; the time is that of transformMessages.
  unfoldable pub bedrock_messages_from_context : ℕ → ModelContext → Model → List BedrockMessage
  unfolding bedrock_loop
  bedrock_messages_from_context now ctx model =
      bedrock_loop
        (transform_messages now (some normalize_bedrock_id) (transform_target model) ctx.messages)
        [] 0
