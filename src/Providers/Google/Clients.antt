-- ===== src/Providers/Google/Clients.antt =====
-- internal/providers/google.go: completeGenerative and completeVertex. What lies outside is a record: the
-- services, the parsers of their replies, the environment and the program gcloud.
use pi_go_coding_agent.Base.{
  ℕ, String, List, [], ◌∷◌, Option, none, some, not, ◌==◌, ◌&&◌, if◌then◌else◌,
}
use pi_go_coding_agent.Base.Text.{trim_space, ◌^^◌}
use pi_go_coding_agent.Base.Dict.{Dict}
use pi_go_coding_agent.Types.{Json}
use pi_go_coding_agent.Session.World.{Result, ok, err}
use pi_go_coding_agent.Config.Models.{Model}
use pi_go_coding_agent.Providers.Http.{HttpReply, ok_body, bind}
use pi_go_coding_agent.Providers.OpenAi.Ids.{text_or}
use pi_go_coding_agent.Providers.OpenAi.Messages.{merge_headers, set_headers}
use pi_go_coding_agent.Providers.OpenAi.Endpoints.{without_slash, resolve_api_key}
use pi_go_coding_agent.Providers.OpenAi.Completion.{CompletionResponse}
use pi_go_coding_agent.Providers.OpenAi.Requests.{CompletionRequest, Provider}
use pi_go_coding_agent.Providers.Google.History.{
  GoogleMessage, Declaration, google_messages, google_tools,
}
use pi_go_coding_agent.Providers.Google.Answer.{GoogleAnswer, google_response_to_completion}

-- A temperature: 0.2, or the one that is asked for
pub data Temperature : Type 0 where
  two_tenths : Temperature
  asked_temperature : Json → Temperature

-- googleReq, googleVertexReq, and the request in cloudCodeAssistRequest; a field that is none is left
-- out, and so is a generation config without fields.
pub record GooglePayload : Type 0 where
  pub system_instruction : Option String
  pub contents : List GoogleMessage
  pub tools : Option (List Declaration)
  pub temperature : Option Temperature
  pub max_output_tokens : Option ℕ

-- cloudCodeAssistRequest, around a payload
pub record Assist : Type 0 where
  pub project : String
  pub model : String
  pub user_agent : String
  pub request_id : String
  pub request_type : String
  pub session_id : String

pub record GoogleCall : Type 0 where
  pub url : String
  pub headers : Dict String
  pub payload : GooglePayload
  pub assist : Option Assist

pub record GoogleService : Type 0 where
  -- what randomID draws for the request and for the reply
  pub random : ℕ → String
  pub random_back : ℕ → String
  pub now : ℕ
  pub getenv : String → String
  pub send : GoogleCall → HttpReply
  -- what gcloud prints, with the words after `gcloud auth`, if it succeeds
  pub gcloud : String → Option String
  -- url.PathEscape, url.QueryEscape and strconv.Itoa
  pub path_escape : String → String
  pub query_escape : String → String
  pub number : ℕ → String
  -- json.Unmarshal of a reply, of a chunk, and of credentials with their token and project
  pub reply_answer : String → Result GoogleAnswer
  pub chunk_answer : String → Option GoogleAnswer
  pub credentials : String → Option (String × String)

unfoldable pub text_unless_empty : String → Option String
text_unless_empty s = if s == "" then none else some s

asked_for : Option Json → Option Temperature
asked_for none = none
asked_for (some t) = some (asked_temperature t)

or_two_tenths : Option Json → Option Temperature
or_two_tenths none = some two_tenths
or_two_tenths (some t) = some (asked_temperature t)

-- The address without a slash at its end: the model's, the configured one, or a default
unfoldable pub google_base : Model → Provider → String → String
google_base model p fallback =
    text_or (without_slash model.base_url) (text_or (without_slash p.config.base_url) fallback)

unfoldable pub google_payload : GoogleService → CompletionRequest → GooglePayload
unfolding text_unless_empty asked_for
google_payload o r = record {
  system_instruction = text_unless_empty r.context.system_prompt;
  contents = google_messages o.now r.context r.model;
  tools = google_tools r.context.tools;
  temperature = asked_for r.options.temperature;
  max_output_tokens = r.options.max_tokens;
}

module _ (o : GoogleService) (p : Provider) (r : CompletionRequest) where
  -- resolveAPIKey
  unfoldable pub google_api_key : String
  google_api_key = resolve_api_key r.options.api_key p.api_key p.config

  -- The headers of a request, over which the configured ones are set
  unfoldable pub with_configured : Dict String → Dict String
  with_configured hs =
      set_headers hs (merge_headers r.model.headers r.options.headers p.config.headers)

  complete_call : GoogleCall → Result CompletionResponse
  unfolding bind
  complete_call q = bind (ok_body o.number (o.send q)) λ body.
      bind (o.reply_answer body.whole) (google_response_to_completion o.random_back o.now r.model)

  generative_call : GoogleCall
  unfolding google_payload or_two_tenths google_base google_api_key with_configured
  generative_call = record {
    url =
        google_base r.model p "https://generativelanguage.googleapis.com"
        ^^ "/v1beta/models/"
        ^^ o.path_escape r.model.id
        ^^ ":generateContent?key="
        ^^ o.query_escape google_api_key;
    headers = with_configured (("Content-Type", "application/json") ∷ []);
    payload = record (google_payload o r) { temperature = or_two_tenths r.options.temperature };
    assist = none;
  }

  -- completeGenerative
  unfoldable pub complete_generative : Result CompletionResponse
  unfolding complete_call generative_call
  complete_generative =
      if google_api_key == ""
      then err "missing API key for google provider"
      else complete_call generative_call

  printed_token : Result String
  printed_token = elim (o.gcloud "application-default print-access-token") [
    | some out ↦ ok out
    | none ↦ elim (o.gcloud "print-access-token") [
      | some out ↦ ok out
      | none ↦ err "google-vertex requires GOOGLE_VERTEX_ACCESS_TOKEN or gcloud auth access token"
    ]
  ]

  -- resolveVertexToken
  unfoldable pub resolve_vertex_token : Result String
  unfolding printed_token google_api_key bind
  resolve_vertex_token =
      let token = trim_space google_api_key in
      if not (token == "") && not (token == "<authenticated>")
      then ok token
      else bind printed_token λ out.
        if trim_space out == ""
        then err "google-vertex access token is empty"
        else ok (trim_space out)

  vertex_call : String → String → String → GoogleCall
  unfolding google_payload google_base with_configured
  vertex_call project location token = record {
    url =
        google_base r.model p ("https://" ^^ location ^^ "-aiplatform.googleapis.com")
        ^^ "/v1/projects/"
        ^^ o.path_escape project
        ^^ "/locations/"
        ^^ o.path_escape location
        ^^ "/publishers/google/models/"
        ^^ o.path_escape r.model.id
        ^^ ":generateContent";
    headers =
        with_configured
          (("Content-Type", "application/json") ∷ ("Authorization", "Bearer " ^^ token) ∷ []);
    payload = google_payload o r;
    assist = none;
  }

  -- The project that the environment names
  unfoldable pub project_of : String
  project_of =
      text_or (trim_space (o.getenv "GOOGLE_CLOUD_PROJECT"))
        (trim_space (o.getenv "GCLOUD_PROJECT"))

  -- completeVertex
  unfoldable pub complete_vertex : Result CompletionResponse
  unfolding resolve_vertex_token vertex_call project_of complete_call bind
  complete_vertex =
      let location = trim_space (o.getenv "GOOGLE_CLOUD_LOCATION") in
      if project_of == ""
      then err "google-vertex requires GOOGLE_CLOUD_PROJECT or GCLOUD_PROJECT"
      else if location == ""
      then err "google-vertex requires GOOGLE_CLOUD_LOCATION"
      else bind resolve_vertex_token λ token. complete_call (vertex_call project_of location token)
