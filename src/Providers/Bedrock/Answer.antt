-- ===== src/Providers/Bedrock/Answer.antt =====
-- internal/providers/bedrock.go: what Complete makes of an answer.
use pi_go_coding_agent.Base.{
  ℕ, String, List, [], ◌∷◌, ◌++◌, Option, none, some, ◌==◌, if◌then◌else◌,
}
use pi_go_coding_agent.Base.Strings.{text_or_empty}
use pi_go_coding_agent.Types.{
  assistant, thinking, tool_call, ContentBlock, empty_block, text_block, empty_message, ToolCall,
  Fields, end, Usage, no_usage,
}
use pi_go_coding_agent.Config.Models.{Model}
use pi_go_coding_agent.Providers.OpenAi.Completion.{CompletionResponse, call_of_block}
use pi_go_coding_agent.Providers.Bedrock.History.{id_or_new}

pub data StopReason : Type 0 where
  end_turn stop_sequence max_tokens_reached tool_use_asked another : StopReason

-- mapBedrockStopReason
unfoldable pub map_bedrock_stop_reason : StopReason → String
map_bedrock_stop_reason end_turn = "stop"
map_bedrock_stop_reason stop_sequence = "stop"
map_bedrock_stop_reason max_tokens_reached = "length"
map_bedrock_stop_reason tool_use_asked = "toolUse"
map_bedrock_stop_reason another = "error"

-- A block of an answer, whose fields may be missing
pub data AnswerBlock : Type 0 where
  text_answer : String → AnswerBlock
  tool_answer : (id name : Option String) → Option Fields → AnswerBlock
  reasoning_answer : (thoughts signature : Option String) → AnswerBlock
  other_answer : AnswerBlock

pub record ConverseOutput : Type 0 where
  pub stop_reason : StopReason
  -- none where there is no message
  pub content : Option (List AnswerBlock)
  pub usage : Option (Option ℕ × Option ℕ × Option ℕ)

or_zero : Option ℕ → ℕ
or_zero none = 0
or_zero (some n) = n

converse_usage : Option (Option ℕ × Option ℕ × Option ℕ) → Usage
unfolding or_zero
converse_usage none = no_usage
converse_usage (some (input, output, total)) = record no_usage {
  input = or_zero input;
  output = or_zero output;
  total = or_zero total;
}

fields_or_none : Option Fields → Fields
fields_or_none none = end
fields_or_none (some fields) = fields

module _ (random : ℕ → String) where
  answer_block : AnswerBlock → ℕ → List ContentBlock × ℕ
  unfolding id_or_new fields_or_none
  answer_block (text_answer s) n = (if s == "" then [] else text_block s ∷ [], n)
  answer_block (tool_answer id name arguments) n =
      let (id', n') = id_or_new random (text_or_empty id) n in
      (
        record (empty_block tool_call) {
          id = id';
          name = text_or_empty name;
          arguments = fields_or_none arguments;
        }
            ∷ [],
        n',
      )
  answer_block (reasoning_answer thoughts signature) n = (
    (if text_or_empty thoughts == ""
        then []
        else record (empty_block thinking) {
          thoughts = text_or_empty thoughts;
          thinking_sig = text_or_empty signature;
          thought_signature = text_or_empty signature;
        }
          ∷ []),
    n,
  )
  answer_block other_answer n = ([], n)

  answer_blocks : List AnswerBlock → ℕ → List ContentBlock
  unfolding answer_block
  answer_blocks [] n = []
  answer_blocks (b ∷ bs) n = let (front, n') = answer_block b n in front ++ answer_blocks bs n'

  blocks_of : Option (List AnswerBlock) → List ContentBlock
  unfolding answer_blocks
  blocks_of none = []
  blocks_of (some bs) = answer_blocks bs 0

calls_in : List ContentBlock → List ToolCall
calls_in [] = []
calls_in (b ∷ bs) = elim b.type [ tool_call ↦ call_of_block b ∷ calls_in bs | _ ↦ calls_in bs ]

-- What Complete makes of an answer
unfoldable pub bedrock_completion : (ℕ → String) → ℕ → Model → ConverseOutput → CompletionResponse
unfolding blocks_of calls_in converse_usage
bedrock_completion random now model out =
    let blocks = blocks_of random out.content in
    record {
      message = record (empty_message assistant) {
        timestamp = now;
        api = model.api;
        provider = model.provider;
        model = model.id;
        stop_reason = map_bedrock_stop_reason out.stop_reason;
        usage = converse_usage out.usage;
        content = blocks;
      };
      tool_calls = calls_in blocks;
    }
