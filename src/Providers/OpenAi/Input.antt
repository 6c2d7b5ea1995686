-- ===== src/Providers/OpenAi/Input.antt =====
-- internal/providers/openai.go: openAIResponsesInput, the history as the Responses API takes it.
-- `random` gives what randomOpenAIID draws, by the place where it is drawn, `drawn` what the
-- transformation draws for an identifier, and `marshal` is json.Marshal.
use pi_go_coding_agent.Base.{
  ℕ, suc, ◌+◌, ◌*◌, String, Bool, false, List, [], ◌∷◌, ◌++◌, none, some, ◌==◌, ◌&&◌, not,
  if◌then◌else◌,
}
use pi_go_coding_agent.Base.Text.{trim_space, ◌^^◌}
use pi_go_coding_agent.Types.{
  user, assistant, tool, other, text, thinking, tool_call, ContentBlock, Message, Tool, Fields,
}
use pi_go_coding_agent.Config.Models.{Model}
use pi_go_coding_agent.Providers.Transform.{transform_messages}
use pi_go_coding_agent.Providers.OpenAi.Ids.{
  normalize_responses_id, split_tool_call_id, extract_call_id,
}
use pi_go_coding_agent.Providers.OpenAi.Chat.{transform_target, or_no_output, ChatTool}
use pi_go_coding_agent.Providers.OpenAi.Messages.{ModelContext, message_text}

pub data Part : Type 0 where
  input_text : String → Part
  -- the address, which holds the data of the image
  input_image : String → Part

-- An item of the input. A message of the assistant is numbered.
pub data Item : Type 0 where
  prompt_item : String → List Part → Item
  output_message : ℕ → String → Item
  function_call : (item_id call_id name arguments : String) → Item
  function_call_output : (call_id output : String) → Item

part_of : ContentBlock → List Part
part_of b = elim b.type [
  | text ↦ if trim_space b.body == "" then [] else input_text b.body ∷ []
  | other t ↦
      if (t == "image") && not (b.blob == "") && not (b.mime_type == "")
      then input_image ("data:" ^^ b.mime_type ^^ ";base64," ^^ b.blob) ∷ []
      else []
  | _ ↦ []
]

parts_of : List ContentBlock → List Part
unfolding part_of
parts_of [] = []
parts_of (b ∷ bs) = part_of b ++ parts_of bs

-- The parts of a user's message, which has one at least
user_parts : Message → List Part
unfolding parts_of
user_parts m = elim (parts_of m.content) [ [] ↦ input_text (message_text m) ∷ [] | p ∷ ps ↦ p ∷ ps ]

-- A text of the assistant, with the number of the next
unfoldable pub output_text : String → ℕ → List Item × ℕ
output_text s n = if trim_space s == "" then ([], n) else (output_message n s ∷ [], suc n)

-- Whether the system prompt stands in the input, and the role that says it
unfoldable pub prompt_items : Model → Bool → String → List Item
prompt_items model include prompt =
    if include && not (trim_space prompt == "")
    then prompt_item (if model.reasoning then "developer" else "system") (input_text prompt ∷ [])
      ∷ []
    else []

unfoldable pub or_empty_prompt : List Item → List Item
or_empty_prompt [] = prompt_item "user" (input_text "" ∷ []) ∷ []
or_empty_prompt (i ∷ is) = i ∷ is

-- The history as transformMessages leaves it for a model
unfoldable pub transformed_history :
    (String → String × String) → ℕ → Model → List Message → List Message
transformed_history drawn now model ms =
    let normalize =
      λ (id : String). let (call, item) = drawn id in normalize_responses_id call item model id in
    transform_messages now (some normalize) (transform_target model) ms

module _ (random : ℕ → String) (marshal : Fields → String) where
  -- A call, in the round of the loop that has the number n
  unfoldable pub call_item : ℕ → ContentBlock → Item
  call_item n b =
      let (call, item) = split_tool_call_id (random (2 * n)) (random (2 * n + 1)) b.id in
      function_call item call b.name (marshal b.arguments)

  unfoldable pub block_items : ℕ → ContentBlock → ℕ → List Item × ℕ
  unfolding call_item output_text
  block_items n b id = elim b.type [
    | text ↦ output_text b.body id
    | thinking ↦ output_text b.thoughts id
    | tool_call ↦ (call_item n b ∷ [], id)
    | _ ↦ ([], id)
  ]

  -- The blocks of an assistant's message, the number of the next round, and that of the next text
  unfoldable pub assistant_items : List ContentBlock → ℕ → ℕ → List Item × ℕ × ℕ
  unfolding block_items
  assistant_items [] n id = ([], n, id)
  assistant_items (b ∷ bs) n id =
      let (front, id₁) = block_items n b id in
      let (back, n', id₂) = assistant_items bs (suc n) id₁ in (front ++ back, n', id₂)

  unfoldable pub message_items : Message → ℕ → ℕ → List Item × ℕ × ℕ
  unfolding assistant_items user_parts
  message_items m n id = elim m.role [
    | user ↦ (prompt_item "user" (user_parts m) ∷ [], n, id)
    | assistant ↦ assistant_items m.content n id
    | tool ↦ (
      function_call_output (extract_call_id (random (2 * n)) m.tool_call_id)
            (or_no_output (message_text m))
          ∷ [],
      suc n,
      id,
    )
    | other r ↦ ([], n, id)
  ]

  -- The loop over the transformed history
  unfoldable pub input_items : List Message → ℕ → ℕ → List Item
  unfolding message_items
  input_items [] n id = []
  input_items (m ∷ ms) n id =
      let (front, n', id') = message_items m n id in front ++ input_items ms n' id'

  -- openAIResponsesInput; the time is that of transformMessages.
  unfoldable pub open_ai_responses_input :
      (String → String × String) → ℕ → Model → Bool → ModelContext → List Item
  unfolding input_items prompt_items or_empty_prompt
  open_ai_responses_input drawn now model include ctx = or_empty_prompt (
      prompt_items model include ctx.system_prompt
      ++ input_items (transformed_history drawn now model ctx.messages) 0 0)

-- openAIResponsesTools
unfoldable pub open_ai_responses_tools : List Tool → Bool → List ChatTool
open_ai_responses_tools [] strict = []
open_ai_responses_tools (t ∷ ts) strict =
    record {
      name = t.name;
      description = t.description;
      parameters = t.parameters;
      strict = if strict then some false else none;
    }
    ∷ open_ai_responses_tools ts strict
