-- ===== src/Providers/OpenAi/Requests.antt =====
-- internal/providers/openai.go: a request of Complete, with the account that a token names. What the program meets outside is a record: the service,
-- the parsers of its replies, and the environment. The headers of a request are compared by their
-- names as they are written.
use pi_go_coding_agent.Base.{
  ℕ, zero, suc, ◌%◌, String, Bool, true, false, List, [], ◌∷◌, Option, none, some, ◌==◌,
  if◌then◌else◌,
}
use pi_go_coding_agent.Base.Text.{trim_space, ◌^^◌}
use pi_go_coding_agent.Base.Strings.{split_on, byte_length}
use pi_go_coding_agent.Base.Dict.{Dict}
use pi_go_coding_agent.Types.{Json, str, obj, Fields, lookup_field}
use pi_go_coding_agent.Session.World.{Result, ok, err}
use pi_go_coding_agent.Config.Models.{Model, ProviderConfig}
use pi_go_coding_agent.Providers.Http.{HttpReply}
use pi_go_coding_agent.Providers.OpenAi.Compat.{Compat}
use pi_go_coding_agent.Providers.OpenAi.Messages.{ModelContext, has_tool_history}
use pi_go_coding_agent.Providers.OpenAi.Chat.{ChatMessage, ChatTool, open_ai_tools}
use pi_go_coding_agent.Providers.OpenAi.Input.{Item}
use pi_go_coding_agent.Providers.OpenAi.Completion.{ResponsesAnswer, ChatAnswer}
use pi_go_coding_agent.Providers.OpenAi.Stream.{Event}

-- types.CompletionOptions; a temperature is kept as a JSON value.
pub record Options : Type 0 where
  pub api_key : String
  pub temperature : Option Json
  pub max_tokens : Option ℕ
  pub headers : Dict String
  pub session_id : String

pub record CompletionRequest : Type 0 where
  pub model : Model
  pub context : ModelContext
  pub options : Options

-- openAICompatibleProvider
pub record Provider : Type 0 where
  pub config : ProviderConfig
  pub api_key : String

-- The fields of a payload; one that is none is left out.
pub record ChatPayload : Type 0 where
  pub model : String
  pub messages : List ChatMessage
  pub tools : Option (List ChatTool)
  pub temperature : Option Json
  -- the field's name, and the limit
  pub limit : Option (String × ℕ)
  pub store : Option Bool

pub record ResponsesPayload : Type 0 where
  pub model : String
  pub input : List Item
  pub stream : Bool
  pub max_output_tokens : Option ℕ
  pub temperature : Option Json
  pub prompt_cache_key : Option String
  -- the instructions; a tool choice "auto" and parallel calls go with them
  pub instructions : Option String
  pub tools : Option (List ChatTool)

pub data Payload : Type 0 where
  chat_payload : ChatPayload → Payload
  responses_payload : ResponsesPayload → Payload

pub record HttpRequest : Type 0 where
  pub url : String
  pub headers : Dict String
  pub payload : Payload

pub record Outer : Type 0 where
  -- what randomOpenAIID draws for the request, and for the reply
  pub random : ℕ → String
  pub random_back : ℕ → String
  pub drawn : String → String × String
  pub now : ℕ
  pub getenv : String → String
  pub query_escape : String → String
  pub send : HttpRequest → HttpReply
  -- json.Marshal and json.Unmarshal
  pub marshal : Fields → String
  pub unmarshal : String → Option Fields
  pub chat_answer : String → Result ChatAnswer
  pub responses_answer : String → Result ResponsesAnswer
  pub event_of : String → Option Event
  -- base64.RawURLEncoding and base64.URLEncoding
  pub decode_raw : String → Option String
  pub decode_padded : String → Option String
  -- strconv.Itoa
  pub number : ℕ → String

unfoldable pub some_if : {A : Type 0} → Bool → A → Option A
some_if true a = some a
some_if false a = none

-- The tools of the payload; an empty list where the history has calls
unfoldable pub chat_tools : Compat → ModelContext → Option (List ChatTool)
unfolding some_if open_ai_tools
chat_tools compat ctx = elim (open_ai_tools ctx.tools compat) [
  | [] ↦ some_if (has_tool_history ctx.messages) []
  | t ∷ ts ↦ some (t ∷ ts)
]

unfoldable pub limit_of : Compat → Option ℕ → Option (String × ℕ)
limit_of compat none = none
limit_of compat (some n) =
    some (
      (if compat.max_tokens_field == "max_tokens" then "max_tokens" else "max_completion_tokens"),
      n,
    )

-- padBase64
unfoldable pub pad_base64 : String → String
pad_base64 s = elim (byte_length s % 4) [
  | zero ↦ s
  | suc zero ↦ s ^^ "==="
  | suc (suc zero) ↦ s ^^ "=="
  | suc (suc (suc m)) ↦ s ^^ "="
]

no_account : Result String
no_account = err "failed to extract accountId from token"

string_in : String → Fields → Result String
unfolding no_account
string_in key fields = elim (lookup_field key fields) [
  | none ↦ no_account
  | some j ↦ elim j [ str s ↦ if trim_space s == "" then no_account else ok s | _ ↦ no_account ]
]

account_in : Fields → Result String
unfolding no_account string_in
account_in fields = elim (lookup_field "https://api.openai.com/auth" fields) [
  | none ↦ no_account
  | some j ↦ elim j [ obj auth ↦ string_in "chatgpt_account_id" auth | _ ↦ no_account ]
]

module _ (o : Outer) where
  -- The payload of a token, as it stands or padded
  decode_payload : String → Option String
  unfolding pad_base64
  decode_payload s = elim (o.decode_raw s) [
    | some text ↦ some text
    | none ↦ o.decode_padded (pad_base64 s)
  ]

  -- extractCodexAccountID
  unfoldable pub extract_codex_account_id : String → Result String
  unfolding decode_payload account_in no_account
  extract_codex_account_id token = elim (split_on 46 token) [
    | head ∷ payload ∷ signature ∷ [] ↦ elim (decode_payload payload) [
      | none ↦ no_account
      | some text ↦ elim (o.unmarshal text) [ none ↦ no_account | some fields ↦ account_in fields ]
    ]
    | _ ↦ no_account
  ]
