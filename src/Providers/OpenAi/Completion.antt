-- ===== src/Providers/OpenAi/Completion.antt =====
-- internal/providers/openai.go: what the client makes of an answer. `unmarshal` is json.Unmarshal of
-- the arguments of a call; a text that is no JSON object leaves the arguments empty. A count is an
-- int64 of the reply.
use pi_go_coding_agent.Base.{
  ℕ, suc, ◌==◌, String, Bool, List, [], ◌∷◌, ◌++◌, Option, none, some, map, ◌&&◌, ◌||◌, not,
  if◌then◌else◌, ltb, ◌^◌,
}
use pi_go_coding_agent.Base.Text.{trim_space, equal_fold, join, ◌^^◌}
use pi_go_coding_agent.Base.Int64.{Int64, int64_add, int64_sub}
use pi_go_coding_agent.Types.{
  assistant, tool_call, thinking, ContentBlock, empty_block, text_block, Message, empty_message,
  ToolCall, Fields, Usage, no_usage, end,
}
use pi_go_coding_agent.Session.World.{Result, ok, err}
use pi_go_coding_agent.Config.Models.{Model}
use pi_go_coding_agent.Providers.OpenAi.Ids.{extract_call_id}
use pi_go_coding_agent.Providers.OpenAi.Messages.{add_line}

-- types.CompletionResponse
pub record CompletionResponse : Type 0 where
  pub message : Message
  pub tool_calls : List ToolCall

-- mapOpenAIChatStopReason
unfoldable pub map_chat_stop_reason : String → String
map_chat_stop_reason reason =
    let s = trim_space reason in
    if (s == "") || equal_fold s "stop"
    then "stop"
    else if equal_fold s "length" || equal_fold s "max_tokens"
    then "length"
    else if equal_fold s "tool_calls"
    then "toolUse"
    else "error"

-- mapOpenAIResponsesStopReason
unfoldable pub map_responses_stop_reason : String → String
map_responses_stop_reason status =
    let s = trim_space status in
    if (s == "") || equal_fold s "completed"
    then "stop"
    else if equal_fold s "incomplete"
    then "length"
    else if equal_fold s "failed" || equal_fold s "cancelled"
    then "error"
    else if equal_fold s "queued" || equal_fold s "in_progress"
    then "stop"
    else "error"

pub record ContentPart : Type 0 where
  pub type : String
  pub body : String
  pub refusal : String

-- An item of the output of the Responses API
pub record OutputItem : Type 0 where
  pub type : String
  pub id : String
  pub call_id : String
  pub name : String
  pub arguments : String
  pub summary : List String
  pub content : List ContentPart

pub record ResponsesAnswer : Type 0 where
  pub status : String
  pub output : List OutputItem
  pub input_tokens : Int64
  pub output_tokens : Int64
  pub total_tokens : Int64
  pub cached_tokens : Int64

pub record ChatCallAnswer : Type 0 where
  pub id : String
  pub name : String
  pub arguments : String

-- A choice of the chat completions, with the text that parseOpenAIMessageText finds in it
pub record Choice : Type 0 where
  pub text : String
  pub tool_calls : List ChatCallAnswer
  pub finish_reason : String

pub record ChatAnswer : Type 0 where
  pub choices : List Choice
  pub prompt_tokens : ℕ
  pub completion_tokens : ℕ
  pub total_tokens : ℕ

is_negative : Int64 → Bool
is_negative n = not (ltb n (2 ^ 63))

-- The counts of a Responses answer: no input below zero, and a total where none is given
unfoldable pub responses_usage : ResponsesAnswer → Usage
unfolding is_negative
responses_usage a =
    let less = int64_sub a.input_tokens a.cached_tokens in
    let input = if is_negative less then 0 else less in
    record {
      input = input;
      output = a.output_tokens;
      cache_read = a.cached_tokens;
      cache_write = 0;
      total =
          if ltb 0 a.total_tokens
          then a.total_tokens
          else int64_add (int64_add input a.output_tokens) a.cached_tokens;
    }

add_part : String → ContentPart → String
add_part front p =
    if (p.type == "output_text") && not (p.body == "")
    then add_line front p.body
    else if (p.type == "refusal") && not (p.refusal == "")
    then add_line front p.refusal
    else front

parts_text : String → List ContentPart → String
unfolding add_part
parts_text front [] = front
parts_text front (p ∷ ps) = parts_text (add_part front p) ps

summary_texts : List String → List String
summary_texts [] = []
summary_texts (s ∷ ss) =
    let rest = summary_texts ss in if trim_space s == "" then rest else s ∷ rest

reasoning_blocks : List String → List ContentBlock
reasoning_blocks [] = []
reasoning_blocks (s ∷ ss) = record (empty_block thinking) { thoughts = join "\n\n" (s ∷ ss) } ∷ []

abbrev pub call_of_block : ContentBlock → ToolCall
call_of_block b = record { id = b.id; name = b.name; arguments = b.arguments }

calls_of : List ContentBlock → List ToolCall
calls_of [] = []
calls_of (b ∷ bs) = elim b.type [ tool_call ↦ call_of_block b ∷ calls_of bs | _ ↦ calls_of bs ]

reason_with_calls : List ToolCall → String → String
reason_with_calls [] reason = reason
reason_with_calls (c ∷ cs) reason = if reason == "stop" then "toolUse" else reason

module _ (random : ℕ → String) (unmarshal : String → Option Fields) where
  parsed_arguments : String → Fields
  parsed_arguments s =
      if s == "" then end else elim (unmarshal s) [ none ↦ end | some fields ↦ fields ]

  function_block : String → String → String → ContentBlock
  unfolding parsed_arguments
  function_block id name arguments = record (empty_block tool_call) {
    id = id;
    name = name;
    arguments = parsed_arguments arguments;
  }

  -- The identifier of a call: that of the call, and that of its item
  block_id : ℕ → OutputItem → String
  block_id n i =
      let call = extract_call_id (random n) i.call_id in
      if trim_space i.id == "" then call else call ^^ "|" ^^ trim_space i.id

  -- The blocks of an item, in the round of the loop that has the number n
  unfoldable pub item_blocks : ℕ → OutputItem → List ContentBlock
  unfolding parts_text summary_texts reasoning_blocks block_id function_block
  item_blocks n i =
      let said = parts_text "" i.content in
      if i.type == "message"
      then if trim_space said == "" then [] else text_block said ∷ []
      else if i.type == "reasoning"
      then reasoning_blocks (summary_texts i.summary)
      else if i.type == "function_call"
      then function_block (block_id n i) i.name i.arguments ∷ []
      else []

  unfoldable pub output_blocks : ℕ → List OutputItem → List ContentBlock
  unfolding item_blocks
  output_blocks n [] = []
  output_blocks n (i ∷ is) = item_blocks n i ++ output_blocks (suc n) is

  -- openAIResponsesToCompletion; the calls are those of the blocks.
  unfoldable pub responses_to_completion : ℕ → Model → ResponsesAnswer → Result CompletionResponse
  unfolding calls_of reason_with_calls
  responses_to_completion now model a =
      let calls = calls_of (output_blocks 0 a.output) in
      let m = record (empty_message assistant) {
        timestamp = now;
        api = model.api;
        provider = model.provider;
        model = model.id;
        usage = responses_usage a;
        content = output_blocks 0 a.output;
        stop_reason = reason_with_calls calls (map_responses_stop_reason a.status);
      } in
      elim (output_blocks 0 a.output) [
        | [] ↦ err "empty response from provider"
        | b ∷ bs ↦ ok (record { message = m; tool_calls = calls })
      ]

  chat_block : ℕ → ChatCallAnswer → ContentBlock
  unfolding function_block
  chat_block n c =
      function_block (if c.id == "" then "call_" ^^ random n else c.id) c.name c.arguments

  chat_blocks : ℕ → List ChatCallAnswer → List ContentBlock
  unfolding chat_block
  chat_blocks n [] = []
  chat_blocks n (c ∷ cs) = chat_block n c ∷ chat_blocks (suc n) cs

  -- completeChatCompletions, on the answer of the service
  unfoldable pub chat_to_completion : ℕ → Model → ChatAnswer → Result CompletionResponse
  unfolding chat_blocks calls_of
  chat_to_completion now model a = elim a.choices [
    | [] ↦ err "empty response from provider"
    | c ∷ cs ↦
        let calls = chat_blocks 0 c.tool_calls in
        ok (record {
          message = record (empty_message assistant) {
            timestamp = now;
            api = model.api;
            provider = model.provider;
            model = model.id;
            stop_reason = map_chat_stop_reason c.finish_reason;
            usage = record no_usage {
              input = a.prompt_tokens;
              output = a.completion_tokens;
              total = a.total_tokens;
            };
            content = (if c.text == "" then [] else text_block c.text ∷ []) ++ calls;
          };
          tool_calls = map call_of_block calls;
        })
  ]
