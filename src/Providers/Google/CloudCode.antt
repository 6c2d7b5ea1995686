-- ===== src/Providers/Google/CloudCode.antt =====
-- internal/providers/google.go: completeCloudCodeAssist, which tries its addresses in turn and reads a
-- stream of chunks, and Complete. A line of more than 10 MiB is an ending that breaks the stream.
use pi_go_coding_agent.Base.{
  ℕ, String, Bool, true, false, List, [], ◌∷◌, ◌++◌, none, some, not, ◌==◌, ◌&&◌, ◌||◌,
  if◌then◌else◌,
}
use pi_go_coding_agent.Base.Text.{trim_space, equal_fold, ◌^^◌}
use pi_go_coding_agent.Base.Strings.{has_prefix, trim_prefix}
use pi_go_coding_agent.Base.Dict.{Dict}
use pi_go_coding_agent.Types.{assistant, Message, empty_message}
use pi_go_coding_agent.Session.World.{Result, ok, err}
use pi_go_coding_agent.Config.Models.{Model}
use pi_go_coding_agent.Config.Models.Search.{contains_fold}
use pi_go_coding_agent.Providers.Http.{Body, end_of_file, broken, ok_body, bind}
use pi_go_coding_agent.Providers.OpenAi.Ids.{text_or}
use pi_go_coding_agent.Providers.OpenAi.Completion.{CompletionResponse}
use pi_go_coding_agent.Providers.OpenAi.Requests.{CompletionRequest, Provider}
use pi_go_coding_agent.Providers.Google.Answer.{
  GoogleAnswer, Candidate, append_google_parts, google_calls, google_usage_to_usage,
  map_google_stop_reason, has_some,
}
use pi_go_coding_agent.Providers.Google.Clients.{
  GoogleCall, GoogleService, Assist, google_base, google_payload, google_api_key, with_configured,
  project_of, complete_generative, complete_vertex,
}

abbrev is_antigravity : Model → Bool
is_antigravity m = m.provider == "google-antigravity"

abbrev cloud_code : String
cloud_code = "https://cloudcode-pa.googleapis.com"

-- The addresses that are tried
unfoldable pub endpoints : Model → Provider → List String
endpoints m p =
    let daily : String = "https://daily-cloudcode-pa.sandbox.googleapis.com" in
    let base = google_base m p (if is_antigravity m then daily else cloud_code) in
    if is_antigravity m && not (base == cloud_code) then base ∷ cloud_code ∷ [] else base ∷ []

unless_missing : String → String → Result (String × String)
unless_missing token project =
    if (token == "") || (project == "")
    then err "google-gemini-cli credentials missing token or projectId"
    else ok (token, project)

-- The message that the stream builds up; `parts_done` numbers the parts.
pub record Built : Type 0 where
  pub message : Message
  pub has_calls : Bool
  pub parts_done : ℕ

module _ (o : GoogleService) (p : Provider) (r : CompletionRequest) where
  -- parseCloudCodeAssistAuth
  unfoldable pub parse_cloud_code_assist_auth : String → Result (String × String)
  unfolding unless_missing
  parse_cloud_code_assist_auth raw =
      let text = trim_space raw in
      if text == ""
      then err "google-gemini-cli requires OAuth credentials (token + projectId)"
      else if has_prefix text "{"
      then elim (o.credentials text) [
        | none ↦ err "invalid google-gemini-cli credential JSON"
        | some (token, project) ↦ unless_missing (trim_space token) (trim_space project)
      ]
      else unless_missing text (project_of o p r)

  assist_of : String → Assist
  assist_of project = record {
    project = project;
    model = r.model.id;
    user_agent = if is_antigravity r.model then "antigravity" else "pi-coding-agent";
    request_id = "pi-" ^^ o.random 0;
    request_type = if is_antigravity r.model then "agent" else "";
    session_id = r.options.session_id;
  }

  agent_header : String
  agent_header =
      if is_antigravity r.model
      then "antigravity/"
        ^^ text_or (o.getenv "PI_AI_ANTIGRAVITY_VERSION") "1.15.8"
        ^^ " darwin/arm64"
      else "google-cloud-sdk vscode_cloudshelleditor/0.1"

  thinking_header : Dict String
  thinking_header =
      if contains_fold r.model.id "claude" && contains_fold r.model.id "thinking"
      then ("anthropic-beta", "interleaved-thinking-2025-05-14") ∷ []
      else []

  assist_call : String → String → String → GoogleCall
  unfolding assist_of agent_header thinking_header
  assist_call token project endpoint = record {
    url = endpoint ^^ "/v1internal:streamGenerateContent?alt=sse";
    headers = with_configured o p r (
        ("Content-Type", "application/json")
        ∷ ("Accept", "text/event-stream")
        ∷ ("Authorization", "Bearer " ^^ token)
        ∷ ("User-Agent", agent_header)
        ∷ ("X-Goog-Api-Client", "gl-node/22.17.0")
        ∷ (
          "Client-Metadata",
          "{\"ideType\":\"IDE_UNSPECIFIED\",\"platform\":\"PLATFORM_UNSPECIFIED\",\"pluginType\":\"GEMINI\"}",
        )
        ∷ thinking_header);
    payload = google_payload o r;
    assist = some (assist_of project);
  }

  -- The body of the first address that answers, or the error of the last
  unfoldable pub try_endpoints : String → String → List String → Result Body → Result Body
  unfolding assist_call
  try_endpoints token project [] last = last
  try_endpoints token project (e ∷ es) last =
      elim (ok_body o.number (o.send (assist_call token project e))) [
        | ok body ↦ ok body
        | err why ↦ try_endpoints token project es (err why)
      ]

  add_candidate : List Candidate → Built → Built
  add_candidate [] b = b
  add_candidate (c ∷ cs) b =
      let (blocks, n) = append_google_parts o.random_back c.parts b.parts_done in
      let calls = b.has_calls || has_some (google_calls blocks) in
      let stop =
        if c.finish_reason == ""
        then b.message.stop_reason
        else map_google_stop_reason c.finish_reason calls in
      record {
        message = record b.message { content = b.message.content ++ blocks; stop_reason = stop };
        has_calls = calls;
        parts_done = n;
      }

  add_chunk : GoogleAnswer → Built → Built
  unfolding add_candidate
  add_chunk a b =
      let b' = add_candidate a.candidates b in
      record b' { message = record b'.message { usage = google_usage_to_usage a.usage true } }

  -- One line of the stream
  unfoldable pub chunk_step : String → Built → Built
  unfolding add_chunk
  chunk_step line b =
      let text = trim_space line in
      let json = trim_space (trim_prefix text "data:") in
      if not (has_prefix text "data:") || (json == "")
      then b
      else elim (o.chunk_answer json) [ none ↦ b | some a ↦ add_chunk a b ]

  chunk_loop : List String → Built → Built
  unfolding chunk_step
  chunk_loop [] b = b
  chunk_loop (l ∷ ls) b = chunk_loop ls (chunk_step l b)

  finish_built : Built → Result CompletionResponse
  finish_built b =
      let stop = text_or b.message.stop_reason (map_google_stop_reason "STOP" b.has_calls) in
      let response : CompletionResponse = record {
        message = record b.message { stop_reason = stop };
        tool_calls = google_calls b.message.content;
      } in
      elim b.message.content [ [] ↦ err "empty response" | c ∷ cs ↦ ok response ]

  first_built : Built
  first_built = record {
    message = record (empty_message assistant) {
      timestamp = o.now;
      api = r.model.api;
      provider = r.model.provider;
      model = r.model.id;
    };
    has_calls = false;
    parts_done = 0;
  }

  -- The stream up to its end
  unfoldable pub read_chunks : Body → Result CompletionResponse
  unfolding chunk_loop finish_built first_built
  read_chunks body = elim body.ending [
    | broken why ↦ err why
    | end_of_file last ↦ finish_built (chunk_loop (body.lines ++ last ∷ []) first_built)
  ]

  -- completeCloudCodeAssist
  unfoldable pub complete_cloud_code_assist : Result CompletionResponse
  unfolding try_endpoints read_chunks bind parse_cloud_code_assist_auth
  complete_cloud_code_assist = elim (parse_cloud_code_assist_auth (google_api_key o p r)) [
    | err why ↦ err why
    | ok (token, project) ↦
        bind
          (try_endpoints token project (endpoints r.model p)
            (err "cloud code assist request failed"))
          read_chunks
  ]

  -- Complete
  unfoldable pub google_complete : Result CompletionResponse
  unfolding complete_cloud_code_assist
  google_complete =
      if equal_fold r.model.api "google-gemini-cli"
      then complete_cloud_code_assist
      else if equal_fold r.model.api "google-vertex"
      then complete_vertex o p r
      else complete_generative o p r
