-- ===== src/Providers/OpenAi/Complete.antt =====
-- internal/providers/openai.go: Complete, a request to the service and what is made of its reply.
use pi_go_coding_agent.Base.{
  String, Bool, true, false, List, [], ◌∷◌, Option, none, some, ◌==◌, not, if◌then◌else◌,
}
use pi_go_coding_agent.Base.Text.{equal_fold, ◌^^◌}
use pi_go_coding_agent.Base.Dict.{Dict}
use pi_go_coding_agent.Session.World.{Result, ok, err}
use pi_go_coding_agent.Providers.Http.{Body, ok_body, bind}
use pi_go_coding_agent.Providers.OpenAi.Compat.{get_open_ai_compat}
use pi_go_coding_agent.Providers.OpenAi.Endpoints.{
  Mode, open_ai_mode, codex_mode, azure_mode, default_open_ai_base_url, resolve_base_url,
  resolve_api_key, resolve_chat_completions_url, resolve_responses_endpoint,
  resolve_azure_deployment_name,
}
use pi_go_coding_agent.Providers.OpenAi.Messages.{
  copilot_dynamic_headers, merge_headers, set_headers,
}
use pi_go_coding_agent.Providers.OpenAi.Chat.{ChatTool, chat_messages_from_context}
use pi_go_coding_agent.Providers.OpenAi.Input.{open_ai_responses_input, open_ai_responses_tools}
use pi_go_coding_agent.Providers.OpenAi.Completion.{
  CompletionResponse, ResponsesAnswer, responses_to_completion, chat_to_completion,
}
use pi_go_coding_agent.Providers.OpenAi.Stream.{parse_codex_sse_response}
use pi_go_coding_agent.Providers.OpenAi.Requests.{
  CompletionRequest, Provider, Outer, HttpRequest, chat_payload, responses_payload, ChatPayload,
  ResponsesPayload, some_if, chat_tools, limit_of, extract_codex_account_id,
}

some_tools : List ChatTool → Option (List ChatTool)
some_tools [] = none
some_tools (t ∷ ts) = some (t ∷ ts)

bearer : String → String × String
bearer key = ("Authorization", "Bearer " ^^ key)

-- The header that carries the key
chat_key : String → String → String × String
unfolding bearer
chat_key api key = if api == "azure-openai-responses" then ("api-key", key) else bearer key

module _ (o : Outer) (p : Provider) (r : CompletionRequest) where
  chat_request_payload : ChatPayload
  unfolding chat_tools limit_of some_if
  chat_request_payload =
      let compat = get_open_ai_compat r.model in
      record {
        model = r.model.id;
        messages = chat_messages_from_context o.random o.marshal r.model compat o.now r.context;
        tools = chat_tools compat r.context;
        temperature = r.options.temperature;
        limit = limit_of compat r.options.max_tokens;
        store = some_if compat.supports_store false;
      }

  configured_headers : Dict String
  configured_headers = merge_headers r.model.headers r.options.headers p.config.headers

  copilot_headers : Dict String → Dict String
  copilot_headers hs = set_headers hs (copilot_dynamic_headers r.model.provider r.context.messages)

  key_of : String
  key_of = resolve_api_key r.options.api_key p.api_key p.config

  -- The request of completeChatCompletions
  unfoldable pub chat_http_request : HttpRequest
  unfolding chat_request_payload configured_headers copilot_headers key_of chat_key
  chat_http_request = record {
    url =
        resolve_chat_completions_url (resolve_base_url r.model p.config default_open_ai_base_url)
          r.model;
    headers =
        set_headers (("Content-Type", "application/json") ∷ chat_key r.model.api key_of ∷ [])
          (copilot_headers configured_headers);
    payload = chat_payload chat_request_payload;
  }

  -- completeChatCompletions
  unfoldable pub complete_chat_completions : Result CompletionResponse
  unfolding ok_body bind chat_http_request
  complete_chat_completions = bind (ok_body o.number (o.send chat_http_request)) λ body.
      bind (o.chat_answer body.whole) (chat_to_completion o.random_back o.unmarshal o.now r.model)

  -- The fields of the payload that the mode decides
  deployed : Mode → String
  deployed azure_mode =
      resolve_azure_deployment_name r.model.id (o.getenv "AZURE_OPENAI_DEPLOYMENT_NAME_MAP")
  deployed open_ai_mode = r.model.id
  deployed codex_mode = r.model.id

  abbrev is_codex : Mode → Bool
  is_codex codex_mode = true
  is_codex open_ai_mode = false
  is_codex azure_mode = false

  responses_request_payload : Mode → ResponsesPayload
  unfolding deployed some_tools some_if
  responses_request_payload mode = record {
    model = deployed mode;
    input =
        open_ai_responses_input o.random o.marshal o.drawn o.now r.model (not (is_codex mode))
          r.context;
    stream = is_codex mode;
    max_output_tokens = r.options.max_tokens;
    temperature = r.options.temperature;
    prompt_cache_key = some_if (not (r.options.session_id == "")) r.options.session_id;
    instructions = some_if (is_codex mode) r.context.system_prompt;
    tools = some_tools (open_ai_responses_tools r.context.tools (not (is_codex mode)));
  }

  session_header : Dict String
  session_header =
      if r.options.session_id == "" then [] else ("session_id", r.options.session_id) ∷ []

  -- The headers of a mode before the configured ones; Codex needs the account of the token.
  mode_headers : Mode → Result (Dict String)
  unfolding key_of bearer session_header bind
  mode_headers codex_mode = bind (extract_codex_account_id o key_of) λ account. ok (
      ("Content-Type", "application/json")
      ∷ ("Accept", "text/event-stream")
      ∷ bearer key_of
      ∷ ("chatgpt-account-id", account)
      ∷ ("OpenAI-Beta", "responses=experimental")
      ∷ ("originator", "pi")
      ∷ ("User-Agent", "pi-go")
      ∷ session_header)
  mode_headers azure_mode = ok (
      ("Content-Type", "application/json")
      ∷ ("Accept", "application/json")
      ∷ ("api-key", key_of)
      ∷ [])
  mode_headers open_ai_mode =
      ok
        (("Content-Type", "application/json") ∷ ("Accept", "application/json") ∷ bearer key_of ∷ [])

  late_headers : Mode → Dict String
  unfolding configured_headers copilot_headers
  late_headers mode =
      if is_codex mode then configured_headers else copilot_headers configured_headers

  -- The request of completeResponses, if there is an address and, for Codex, an account
  unfoldable pub responses_http_request : Mode → Result HttpRequest
  unfolding responses_request_payload mode_headers late_headers bind
  responses_http_request mode =
      bind (resolve_responses_endpoint o.getenv o.query_escape r.model p.config mode) λ url.
        bind (mode_headers mode) λ headers. ok (record {
          url = url;
          headers = set_headers headers (late_headers mode);
          payload = responses_payload (responses_request_payload mode);
        })

  -- What is read of the body: the stream of Codex, or the text of the others
  answer_in : Mode → Body → Result ResponsesAnswer
  answer_in codex_mode body = parse_codex_sse_response o.event_of body.lines body.ending
  answer_in open_ai_mode body = o.responses_answer body.whole
  answer_in azure_mode body = o.responses_answer body.whole

  -- completeResponses
  unfoldable pub complete_responses : Mode → Result CompletionResponse
  unfolding key_of responses_http_request answer_in ok_body bind
  complete_responses mode =
      if key_of == ""
      then err ("missing API key for provider " ^^ r.model.provider)
      else bind (responses_http_request mode) λ q. bind (ok_body o.number (o.send q)) λ body.
        bind (answer_in mode body) (responses_to_completion o.random_back o.unmarshal o.now r.model)

  -- Complete
  unfoldable pub complete : Result CompletionResponse
  unfolding complete_responses complete_chat_completions
  complete =
      if equal_fold r.model.api "openai-responses"
      then complete_responses open_ai_mode
      else if equal_fold r.model.api "openai-codex-responses"
      then complete_responses codex_mode
      else if equal_fold r.model.api "azure-openai-responses"
      then complete_responses azure_mode
      else complete_chat_completions
