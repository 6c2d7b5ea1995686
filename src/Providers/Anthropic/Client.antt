-- ===== src/Providers/Anthropic/Client.antt =====
-- internal/providers/anthropic.go: Complete.
use pi_go_coding_agent.Base.{
  ℕ, zero, suc, ◌+◌, String, List, [], ◌∷◌, Option, none, some, ◌==◌, if◌then◌else◌,
}
use pi_go_coding_agent.Base.Text.{◌^^◌}
use pi_go_coding_agent.Base.Dict.{Dict}
use pi_go_coding_agent.Types.{
  assistant, tool_call, ContentBlock, empty_block, text_block, empty_message, ToolCall, Fields,
  no_usage,
}
use pi_go_coding_agent.Session.World.{Result, ok}
use pi_go_coding_agent.Config.Models.{Model}
use pi_go_coding_agent.Providers.Http.{HttpReply, ok_body, bind}
use pi_go_coding_agent.Providers.OpenAi.Ids.{text_or}
use pi_go_coding_agent.Providers.OpenAi.Messages.{merge_headers, set_headers}
use pi_go_coding_agent.Providers.OpenAi.Endpoints.{without_slash, resolve_api_key}
use pi_go_coding_agent.Providers.OpenAi.Completion.{CompletionResponse, call_of_block}
use pi_go_coding_agent.Providers.OpenAi.Requests.{CompletionRequest, Provider}
use pi_go_coding_agent.Providers.Anthropic.History.{
  AnthropicMessage, AnthropicTool, anthropic_tools, anthropic_messages_from_context,
}

-- The bodies of a request and of a reply
pub record AnthropicRequest : Type 0 where
  pub model : String
  pub system : String
  pub messages : List AnthropicMessage
  pub tools : List AnthropicTool
  pub max_tokens : ℕ

pub record AnthropicBlock : Type 0 where
  pub type : String
  pub body : String
  pub id : String
  pub name : String
  pub input : Fields

pub record AnthropicResponse : Type 0 where
  pub content : List AnthropicBlock
  pub stop_reason : String
  pub input_tokens : ℕ
  pub output_tokens : ℕ

pub record AnthropicCall : Type 0 where
  pub url : String
  pub headers : Dict String
  pub payload : AnthropicRequest

-- The service, json.Unmarshal of a reply, the random source, the clock and strconv.Itoa
pub record AnthropicService : Type 0 where
  pub random : ℕ → String
  pub now : ℕ
  pub send : AnthropicCall → HttpReply
  pub response : String → Result AnthropicResponse
  pub number : ℕ → String

positive_or : ℕ → ℕ → ℕ
positive_or zero d = d
positive_or (suc n) d = suc n

wanted_tokens : Option ℕ → ℕ → ℕ
wanted_tokens none own = own
wanted_tokens (some n) own = n

response_blocks : List AnthropicBlock → List ContentBlock
response_blocks [] = []
response_blocks (b ∷ bs) =
    let rest = response_blocks bs in
    if b.type == "text"
    then text_block b.body ∷ rest
    else if b.type == "tool_use"
    then record (empty_block tool_call) { id = b.id; name = b.name; arguments = b.input } ∷ rest
    else rest

response_calls : List ContentBlock → List ToolCall
response_calls [] = []
response_calls (b ∷ bs) = elim b.type [
  | tool_call ↦ call_of_block b ∷ response_calls bs
  | _ ↦ response_calls bs
]

-- What Complete makes of a reply
unfoldable pub anthropic_completion : ℕ → Model → AnthropicResponse → CompletionResponse
unfolding response_blocks response_calls
anthropic_completion now model a =
    let blocks = response_blocks a.content in
    record {
      message = record (empty_message assistant) {
        timestamp = now;
        api = model.api;
        provider = model.provider;
        model = model.id;
        stop_reason = a.stop_reason;
        usage = record no_usage {
          input = a.input_tokens;
          output = a.output_tokens;
          total = a.input_tokens + a.output_tokens;
        };
        content = blocks;
      };
      tool_calls = response_calls blocks;
    }

module _ (o : AnthropicService) (p : Provider) (r : CompletionRequest) where
  anthropic_payload : AnthropicRequest
  unfolding positive_or wanted_tokens
  anthropic_payload = record {
    model = r.model.id;
    system = r.context.system_prompt;
    messages = anthropic_messages_from_context o.random o.now r.context r.model;
    tools = anthropic_tools r.context.tools;
    max_tokens = positive_or (wanted_tokens r.options.max_tokens r.model.max_tokens) 4096;
  }

  unfoldable pub anthropic_call : AnthropicCall
  unfolding anthropic_payload
  anthropic_call = record {
    url =
        text_or (without_slash r.model.base_url)
          (text_or (without_slash p.config.base_url) "https://api.anthropic.com")
        ^^ "/v1/messages";
    headers =
        set_headers
          (("Content-Type", "application/json")
            ∷ ("anthropic-version", "2023-06-01")
            ∷ ("x-api-key", resolve_api_key r.options.api_key p.api_key p.config)
            ∷ [])
          (merge_headers r.model.headers r.options.headers p.config.headers);
    payload = anthropic_payload;
  }

  -- Complete
  unfoldable pub anthropic_complete : Result CompletionResponse
  unfolding anthropic_call bind
  anthropic_complete =
      bind (ok_body o.number (o.send anthropic_call))
        λ body. bind (o.response body.whole) λ a. ok (anthropic_completion o.now r.model a)
