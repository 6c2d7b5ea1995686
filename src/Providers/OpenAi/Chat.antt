-- ===== src/Providers/OpenAi/Chat.antt =====
-- internal/providers/openai.go: the request and the answer of the chat completions. `random` gives
-- what randomOpenAIID draws, by the number of the call, and `marshal` is json.Marshal.
use pi_go_coding_agent.Base.{
  ℕ, suc, String, Bool, true, false, List, [], ◌∷◌, ◌++◌, Option, none, some, map, ◌==◌, ◌&&◌, not,
  if◌then◌else◌,
}
use pi_go_coding_agent.Base.Text.{trim_space}
use pi_go_coding_agent.Base.Text.{◌^^◌}
use pi_go_coding_agent.Types.{
  Role, user, assistant, tool, other, tool_call, ContentBlock, Message, Tool, Fields,
}
use pi_go_coding_agent.Config.Models.{Model}
use pi_go_coding_agent.Providers.Transform.{Target, transform_messages}
use pi_go_coding_agent.Providers.OpenAi.Ids.{normalize_tool_call_id}
use pi_go_coding_agent.Providers.OpenAi.Compat.{Compat}
use pi_go_coding_agent.Providers.OpenAi.Messages.{ModelContext, message_text}

pub record ChatCall : Type 0 where
  pub id : String
  pub name : String
  pub arguments : String

-- A message of the request; a tool's answer may have the tool's name.
pub data ChatMessage : Type 0 where
  plain_message : String → String → ChatMessage
  assistant_message : String → List ChatCall → ChatMessage
  tool_message : String → String → Option String → ChatMessage

pub record ChatTool : Type 0 where
  pub name : String
  pub description : String
  pub parameters : Fields
  pub strict : Option Bool

chat_tool : Compat → Tool → ChatTool
chat_tool compat t = record {
  name = t.name;
  description = t.description;
  parameters = t.parameters;
  strict = if compat.supports_strict_mode then some false else none;
}

-- openAITools
unfoldable pub open_ai_tools : List Tool → Compat → List ChatTool
unfolding chat_tool
open_ai_tools tools compat = map (chat_tool compat) tools

-- The fields of a model that the transformation reads
abbrev pub transform_target : Model → Target
transform_target m = record { id = m.id; api = m.api; provider = m.provider }

abbrev pub or_no_output : String → String
or_no_output s = if trim_space s == "" then "(no output)" else s

-- The state of the loop: the role of the last message that was sent, and the calls of the source.
pub record Loop : Type 0 where
  pub last_role : Option Role
  pub drawn : ℕ

-- A user's message that follows a tool's answer
follows_answer : Option Role → Role → Bool
follows_answer (some tool) user = true
follows_answer _ _ = false

module _ (random : ℕ → String) (marshal : Fields → String) (model : Model) (compat : Compat) where
  call_of : ContentBlock → ℕ → ChatCall × ℕ
  call_of b n =
      let named : ChatCall = record { id = b.id; name = b.name; arguments = marshal b.arguments } in
      if b.id == "" then (record named { id = "call_" ^^ random n }, suc n) else (named, n)

  unfoldable pub chat_calls : List ContentBlock → ℕ → List ChatCall × ℕ
  unfolding call_of
  chat_calls [] n = ([], n)
  chat_calls (b ∷ bs) n = elim b.type [
    | tool_call ↦ let (c, n₁) = call_of b n in let (cs, n₂) = chat_calls bs n₁ in (c ∷ cs, n₂)
    | _ ↦ chat_calls bs n
  ]

  -- An assistant's message, unless it has neither text nor calls
  assistant_step : Message → Loop → List ChatMessage × Loop
  unfolding chat_calls
  assistant_step m l =
      let (calls, n) = chat_calls m.content l.drawn in
      let sent : List ChatMessage × Loop = (
        assistant_message (message_text m) calls ∷ [],
        record { last_role = some assistant; drawn = n },
      ) in
      elim calls [
        | [] ↦ if trim_space (message_text m) == "" then ([], l) else sent
        | c ∷ cs ↦ sent
      ]

  role_step : Message → Loop → List ChatMessage × Loop
  unfolding assistant_step
  role_step m l = elim m.role [
    | user ↦ (plain_message "user" (message_text m) ∷ [], record l { last_role = some user })
    | assistant ↦ assistant_step m l
    | tool ↦ (
      tool_message m.tool_call_id (or_no_output (message_text m)) (
            if compat.requires_tool_result_name && not (m.tool_name == "")
            then some m.tool_name
            else none)
          ∷ [],
      record l { last_role = some tool },
    )
    | other r ↦ ([], l)
  ]

  chat_step : Message → Loop → List ChatMessage × Loop
  unfolding role_step follows_answer
  chat_step m l =
      let (sent, l') = role_step m l in
      if compat.requires_assistant_after_tool_result && follows_answer l.last_role m.role
      then (plain_message "assistant" "I have processed the tool results." ∷ sent, l')
      else (sent, l')

  chat_loop : List Message → Loop → List ChatMessage
  unfolding chat_step
  chat_loop [] l = []
  chat_loop (m ∷ ms) l = let (sent, l') = chat_step m l in sent ++ chat_loop ms l'

  chat_system_prompt : String → List ChatMessage
  chat_system_prompt prompt =
      if prompt == ""
      then []
      else plain_message
          (if model.reasoning && compat.supports_developer_role then "developer" else "system")
          prompt
        ∷ []

  -- openAIMessagesFromContext; the time is that of transformMessages.
  unfoldable pub chat_messages_from_context : ℕ → ModelContext → List ChatMessage
  unfolding chat_system_prompt chat_loop
  chat_messages_from_context now ctx =
      chat_system_prompt ctx.system_prompt
      ++ chat_loop
          (transform_messages now
            (some (normalize_tool_call_id compat.requires_mistral_tool_ids model))
            (transform_target model) ctx.messages)
          (record { last_role = none; drawn = 0 })
