-- ===== src/Tests/Clients.antt =====
-- The theorems on the client of OpenAI, at concrete inputs.
use pi_go_coding_agent.Base.{
  String, true, false, [], ◌∷◌, Option, none, some, ◌≡◌, refl, flat_map, string_discrete,
  ℕ_discrete,
}
use pi_go_coding_agent.Base.Text.{trim_space, trim_left, trim_right, is_space}
use pi_go_coding_agent.Base.Strings.{cut_at, take_bytes, trim_right_of, has_prefix, contains}
use pi_go_coding_agent.Base.Dict.{lookup, insert}
use pi_go_coding_agent.Types.{
  user, assistant, tool, tool_call, Message, empty_message, empty_block, text_message, text_block,
  Fields,
}
use pi_go_coding_agent.Config.Models.{Model}
use pi_go_coding_agent.Providers.Transform.{
  transform_messages, first_pass, first_step, transform_blocks, transform_block, call_block,
  rename_result, second_pass, missing_results,
}
use pi_go_coding_agent.Providers.OpenAi.Ids.{
  sanitize_id, trim_and_sanitize_id, call_part, item_part, split_tool_call_id,
  normalize_responses_id,
}
use pi_go_coding_agent.Providers.OpenAi.Messages.{ModelContext}
use pi_go_coding_agent.Providers.OpenAi.Input.{open_ai_responses_input, transformed_history}
use pi_go_coding_agent.Providers.OpenAi.Links.{
  sent_links, message_links, message_is_plain, block_is_plain, is_plain,
  open_ai_responses_input-links,
}
use pi_go_coding_agent.Providers.Http.{end_of_file}
use pi_go_coding_agent.Providers.OpenAi.Stream.{
  Event, absent, parse_codex_sse_response, ended_early,
}
use pi_go_coding_agent.Providers.OpenAi.Events.{
  events_of, first_result, parse_codex_sse_response-events_of,
}
use pi_go_coding_agent.Providers.OpenAi.Chat.{transform_target}
use pi_go_coding_agent.Providers.Anthropic.History.{
  normalize_anthropic_id, anthropic_messages_from_context,
}
use pi_go_coding_agent.Providers.Anthropic.Pairs.{
  request_links, message_ids, calls_named, block_is_named,
  anthropic_messages_from_context-message_ids,
}

abbrev model : Model
model = record {
  id = "m";
  name = "M";
  api = "openai-responses";
  provider = "openai";
  base_url = "";
  reasoning = false;
  input = [];
  context_window = 0;
  max_tokens = 0;
  headers = [];
  compat = none;
}

abbrev call_message : Message
call_message = record (empty_message assistant) {
  content = record (empty_block tool_call) { id = "a1|f"; name = "ls" } ∷ [];
}

abbrev result_message : Message
result_message = record (empty_message tool) {
  tool_call_id = "a1|f";
  content = text_block "x" ∷ [];
}

abbrev context : ModelContext
context = record {
  system_prompt = "";
  messages = text_message 0 user "hi" ∷ call_message ∷ result_message ∷ [];
  tools = [];
}

abbrev drawn : String → String × String
drawn id = ("0", "1")

abbrev marshal : Fields → String
marshal fields = "{}"

open_ai_responses_input-links_example :
    sent_links (open_ai_responses_input (λ n. "r") marshal drawn 0 model true context)
    ≡ flat_map message_links (transformed_history drawn 0 model context.messages)
unfolding transformed_history transform_messages first_pass first_step transform_blocks
    transform_block call_block rename_result lookup insert second_pass missing_results sanitize_id
    trim_and_sanitize_id call_part item_part split_tool_call_id normalize_responses_id cut_at
    take_bytes trim_right_of has_prefix contains message_is_plain block_is_plain is_plain
    string_discrete ℕ_discrete trim_space trim_left trim_right is_space
open_ai_responses_input-links_example =
    open_ai_responses_input-links (λ n. "r") marshal drawn 0 model true context refl

-- An event of the test, which fails where its text is "no".
abbrev event_of : String → Option Event
event_of text =
    some (record { type = "error"; code = ""; message = text; response = absent; failure = "" })

parse_codex_sse_response-events_of_example :
    parse_codex_sse_response event_of ("data: no\n" ∷ "\n" ∷ []) (end_of_file "")
    ≡ ended_early (first_result event_of (events_of ("data: no\n" ∷ "\n" ∷ "" ∷ [])))
parse_codex_sse_response-events_of_example =
    parse_codex_sse_response-events_of event_of ("data: no\n" ∷ "\n" ∷ []) ""

anthropic_messages_from_context-message_ids_example :
    request_links (anthropic_messages_from_context (λ n. "r") 0 context model)
    ≡ flat_map message_ids (
        transform_messages 0
          (some normalize_anthropic_id)
          (transform_target model)
          context.messages)
unfolding transform_messages first_pass first_step transform_blocks transform_block call_block
    rename_result lookup insert second_pass missing_results sanitize_id take_bytes
    normalize_anthropic_id calls_named block_is_named string_discrete ℕ_discrete
anthropic_messages_from_context-message_ids_example =
    anthropic_messages_from_context-message_ids (λ n. "r") 0 context model refl
