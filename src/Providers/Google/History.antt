-- ===== src/Providers/Google/History.antt =====
-- internal/providers/google.go: googleMessages and googleTools, the history and the tools of a request.
use pi_go_coding_agent.Base.{
  ℕ, String, Bool, List, [], ◌∷◌, ◌++◌, Option, none, some, map, not, ◌==◌, ◌&&◌, ◌||◌,
  if◌then◌else◌,
}
use pi_go_coding_agent.Base.Text.{trim_space}
use pi_go_coding_agent.Base.Strings.{take_bytes, has_prefix}
use pi_go_coding_agent.Types.{
  user, assistant, tool, other, text, thinking, tool_call, ContentBlock, Message, Tool, Fields,
}
use pi_go_coding_agent.Config.Models.{Model}
use pi_go_coding_agent.Providers.Transform.{transform_messages}
use pi_go_coding_agent.Providers.OpenAi.Ids.{sanitize_id}
use pi_go_coding_agent.Providers.OpenAi.Messages.{ModelContext, message_text}
use pi_go_coding_agent.Providers.OpenAi.Chat.{transform_target, or_no_output}

-- requiresGoogleToolCallID
unfoldable pub requires_google_id : String → Bool
requires_google_id model_id = has_prefix model_id "claude-" || has_prefix model_id "gpt-oss-"

-- normalizeGoogleToolCallID
unfoldable pub normalize_google_id : Model → String → String
unfolding requires_google_id
normalize_google_id model id =
    if (id == "") || not (requires_google_id model.id) then id else take_bytes 64 (sanitize_id id)

-- A part of a message. An identifier may be left out; a response is an error or an output.
pub data GooglePart : Type 0 where
  said : String → GooglePart
  function_call : String → Fields → Option String → GooglePart
  function_response : (name : String) → Bool → (body : String) → Option String → GooglePart

pub record GoogleMessage : Type 0 where
  pub role : String
  pub parts : List GooglePart

pub record Declaration : Type 0 where
  pub name : String
  pub description : String
  pub parameters : Fields

declaration : Tool → Declaration
declaration t = record { name = t.name; description = t.description; parameters = t.parameters }

-- googleTools; no tools are left out of the request.
unfoldable pub google_tools : List Tool → Option (List Declaration)
unfolding declaration
google_tools [] = none
google_tools (t ∷ ts) = some (map declaration (t ∷ ts))

module _ (needs_id : Bool) where
  wanted_id : String → Option String
  wanted_id id = if needs_id && not (id == "") then some id else none

  google_part_of : ContentBlock → List GooglePart
  unfolding wanted_id
  google_part_of b = elim b.type [
    | text ↦ said b.body ∷ []
    | thinking ↦ if trim_space b.thoughts == "" then [] else said b.thoughts ∷ []
    | tool_call ↦ function_call b.name b.arguments (wanted_id b.id) ∷ []
    | other t ↦ []
  ]

  google_parts_of : List ContentBlock → List GooglePart
  unfolding google_part_of
  google_parts_of [] = []
  google_parts_of (b ∷ bs) = google_part_of b ++ google_parts_of bs

  response_part : Message → GooglePart
  unfolding wanted_id
  response_part m =
      function_response m.tool_name m.is_error (or_no_output (message_text m))
        (wanted_id m.tool_call_id)

  google_message_unless_empty : String → List GooglePart → List GoogleMessage
  google_message_unless_empty role [] = []
  google_message_unless_empty role (p ∷ ps) = record { role = role; parts = p ∷ ps } ∷ []

  -- The loop over the transformed history; the results of tools that follow each other wait for the
  -- first message of another role.
  unfoldable pub google_loop : List Message → List GooglePart → List GoogleMessage
  unfolding google_parts_of response_part google_message_unless_empty
  google_loop [] waiting = google_message_unless_empty "user" waiting
  google_loop (m ∷ ms) waiting = elim m.role [
    | tool ↦ google_loop ms (waiting ++ response_part m ∷ [])
    | user ↦
        google_message_unless_empty "user" waiting
        ++ record { role = "user"; parts = said (message_text m) ∷ [] } ∷ google_loop ms []
    | assistant ↦
        google_message_unless_empty "user" waiting
        ++ google_message_unless_empty "model" (google_parts_of m.content)
        ++ google_loop ms []
    | other r ↦ google_message_unless_empty "user" waiting ++ google_loop ms []
  ]

google_or_empty_text : List GoogleMessage → List GoogleMessage
google_or_empty_text [] = record { role = "user"; parts = said "" ∷ [] } ∷ []
google_or_empty_text (m ∷ ms) = m ∷ ms

-- googleMessages; the time is that of transformMessages.
unfoldable pub google_messages : ℕ → ModelContext → Model → List GoogleMessage
unfolding google_loop google_or_empty_text
google_messages now ctx model = google_or_empty_text (
    google_loop (requires_google_id model.id)
      (transform_messages now (some (normalize_google_id model)) (transform_target model)
        ctx.messages)
      [])
