-- ===== src/Providers/OpenAi/Messages.antt =====
-- internal/providers/factory.go and openai.go: what the clients read of a history.
use pi_go_coding_agent.Base.{
  String, Bool, true, false, List, [], ◌∷◌, none, some, any, last?, ◌==◌, if◌then◌else◌,
}
use pi_go_coding_agent.Base.Text.{equal_fold, ◌^^◌}
use pi_go_coding_agent.Base.Dict.{Dict, insert}
use pi_go_coding_agent.Types.{
  user, assistant, tool, other, text, thinking, tool_call, ContentBlock, Message, Tool,
}
use pi_go_coding_agent.Session.World.{Result, ok, err}
use pi_go_coding_agent.Config.Models.{Model}

-- types.Context
pub record ModelContext : Type 0 where
  pub system_prompt : String
  pub messages : List Message
  pub tools : List Tool

-- A line after the ones that are there
abbrev pub add_line : String → String → String
add_line front s = if front == "" then s else front ^^ "\n" ^^ s

add_text : String → ContentBlock → String
add_text front b = elim b.type [
  | text ↦ add_line front b.body
  | thinking ↦ add_line front b.thoughts
  | _ ↦ front
]

text_after : String → List ContentBlock → String
unfolding add_text
text_after front [] = front
text_after front (b ∷ bs) = text_after (add_text front b) bs

-- messageText
unfoldable pub message_text : Message → String
unfolding text_after
message_text m = text_after "" m.content

-- hasToolHistory
unfoldable pub has_tool_history : List Message → Bool
has_tool_history ms =
    any
      (λ m. elim m.role [
        | tool ↦ true
        | assistant ↦ any (λ b. elim b.type [ tool_call ↦ true | _ ↦ false ]) m.content
        | _ ↦ false
      ])
      ms

-- inferCopilotInitiator
unfoldable pub infer_copilot_initiator : List Message → String
infer_copilot_initiator ms = elim (last? ms) [
  | none ↦ "user"
  | some m ↦ elim m.role [ user ↦ "user" | _ ↦ "agent" ]
]

is_image : ContentBlock → Bool
is_image b = elim b.type [ other t ↦ t == "image" | _ ↦ false ]

-- hasCopilotVisionInput
unfoldable pub has_copilot_vision_input : List Message → Bool
unfolding is_image
has_copilot_vision_input ms =
    any
      (λ m. elim m.role [
        | user ↦ any is_image m.content
        | tool ↦ any is_image m.content
        | _ ↦ false
      ])
      ms

-- copilotDynamicHeaders
unfoldable pub copilot_dynamic_headers : String → List Message → Dict String
unfolding infer_copilot_initiator has_copilot_vision_input
copilot_dynamic_headers provider ms =
    if provider == "github-copilot"
    then ("X-Initiator", infer_copilot_initiator ms)
      ∷ ("Openai-Intent", "conversation-edits")
      ∷ (if has_copilot_vision_input ms then ("Copilot-Vision-Request", "true") ∷ [] else [])
    else []

-- The headers of the second map, over those of the first
unfoldable pub set_headers : Dict String → Dict String → Dict String
set_headers out [] = out
set_headers out ((k, v) ∷ hs) = set_headers (insert k v out) hs

-- mergeHeaders
unfoldable pub merge_headers : Dict String → Dict String → Dict String → Dict String
unfolding set_headers
merge_headers model_headers req_headers cfg_headers =
    set_headers (set_headers (set_headers [] cfg_headers) model_headers) req_headers

pub data Client : Type 0 where
  open_ai anthropic google bedrock : Client

abbrev is_one_of : String → List String → Bool
is_one_of api names = any (λ name. equal_fold api name) names

-- BuildProvider: which client speaks the API of a model
unfoldable pub build_provider : Model → Result Client
build_provider model =
    if is_one_of model.api (
      "openai-completions" ∷ "openai-responses" ∷ "openai-codex-responses"
      ∷ "azure-openai-responses" ∷ [])
    then ok open_ai
    else if equal_fold model.api "anthropic-messages"
    then ok anthropic
    else if is_one_of model.api
        ("google-generative-ai" ∷ "google-gemini-cli" ∷ "google-vertex" ∷ [])
    then ok google
    else if equal_fold model.api "bedrock-converse-stream"
    then ok bedrock
    else err ("unsupported api: " ^^ model.api)
