-- ===== src/Config/Auth/Refresh.antt =====
-- internal/config/auth.go: the refresh of an access token.
use pi_go_coding_agent.Base.{
  ℕ, String, Bool, [], ◌∷◌, Option, none, some, leb, not, ◌==◌, ◌&&◌, ◌||◌, if◌then◌else◌,
}
use pi_go_coding_agent.Base.Text.{◌^^◌, trim_space}
use pi_go_coding_agent.Base.Int64.{Int64, int64_add, int64_mul, int64_sub, int64_leb, is_positive}
use pi_go_coding_agent.Base.Strings.{contains}
use pi_go_coding_agent.Base.Dict.{Dict}
use pi_go_coding_agent.Session.World.{Result, ok, err}
use pi_go_coding_agent.Config.Auth.{AuthCredential, Request, TokenReply, Reply, System, first_set}

abbrev pub then_ok : {A B : Type 0} → Result A → (A → Result B) → Result B
then_ok (ok a) f = f a
then_ok (err e) f = err e

-- The reply to a request, if its status is one of success and its fields can be read.
unfoldable pub tokens_of : String → Result Reply → Result TokenReply
unfolding trim_space
tokens_of name (err e) = err e
tokens_of name (ok r) =
    if leb 300 r.status_code
    then err (name ^^ " token refresh failed: " ^^ trim_space r.body)
    else elim r.decoded [ none ↦ err "invalid JSON" | some t ↦ ok t ]

-- time.Now().UnixMilli() + out.ExpiresIn*1000 - 5*60*1000
unfoldable pub expiry : ℕ → Int64 → Int64
expiry now expires_in = int64_sub (int64_add now (int64_mul expires_in 1000)) 300000

-- The end that the refreshes for OpenAI, Anthropic and Google have in common.
unfoldable pub with_tokens : String → System → AuthCredential → TokenReply → Result AuthCredential
with_tokens name sys cred out =
    if (out.access_token == "") || not (is_positive out.expires_in)
    then err (name ^^ " token refresh response missing fields")
    else ok (record cred {
      access = out.access_token;
      access_token = out.access_token;
      refresh = first_set out.refresh_token cred.refresh;
      expires = expiry sys.received out.expires_in;
    })

abbrev form_header : Dict String
form_header = ("Content-Type", "application/x-www-form-urlencoded") ∷ []

unfoldable pub open_ai_codex_request : AuthCredential → Request
open_ai_codex_request cred = record {
  method = "POST";
  url = "https://auth.openai.com/oauth/token";
  header = form_header;
  fields =
      ("grant_type", "refresh_token")
      ∷ ("refresh_token", cred.refresh)
      ∷ ("client_id", "app_EMoamEEZ73f0CkXaXp7hrann")
      ∷ [];
}

-- refreshOpenAICodexCredential
unfoldable pub refresh_open_ai_codex_credential : System → AuthCredential → Result AuthCredential
refresh_open_ai_codex_credential sys cred =
    then_ok (tokens_of "openai-codex" (sys.send (open_ai_codex_request cred)))
      (with_tokens "openai-codex" sys cred)

unfoldable pub anthropic_request : AuthCredential → Request
anthropic_request cred = record {
  method = "POST";
  url = "https://console.anthropic.com/v1/oauth/token";
  header = ("Content-Type", "application/json") ∷ [];
  fields =
      ("grant_type", "refresh_token")
      ∷ ("client_id", "9d1c250a-e61b-44d9-88ed-5944d1962f5e")
      ∷ ("refresh_token", cred.refresh)
      ∷ [];
}

-- refreshAnthropicCredential
unfoldable pub refresh_anthropic_credential : System → AuthCredential → Result AuthCredential
refresh_anthropic_credential sys cred =
    then_ok (tokens_of "anthropic" (sys.send (anthropic_request cred)))
      (with_tokens "anthropic" sys cred)

unfoldable pub google_request : AuthCredential → String → String → Request
google_request cred client_id client_secret = record {
  method = "POST";
  url = "https://oauth2.googleapis.com/token";
  header = form_header;
  fields =
      ("client_id", client_id)
      ∷ ("client_secret", client_secret)
      ∷ ("refresh_token", cred.refresh)
      ∷ ("grant_type", "refresh_token")
      ∷ [];
}

-- refreshGoogleCredential
unfoldable pub refresh_google_credential :
    System → AuthCredential → String → String → Result AuthCredential
refresh_google_credential sys cred client_id client_secret =
    if (client_id == "") || (client_secret == "")
    then err "google oauth refresh requires client id/secret env vars"
    else then_ok (tokens_of "google" (sys.send (google_request cred client_id client_secret)))
        (with_tokens "google" sys cred)

trimmed_or_empty : Option String → String
unfolding trim_space
trimmed_or_empty none = ""
trimmed_or_empty (some h) = trim_space h

-- normalizeCopilotDomain
unfoldable pub normalize_copilot_domain : System → String → String
unfolding trimmed_or_empty contains
normalize_copilot_domain sys raw =
    let v = trim_space raw in
    let as_host = trimmed_or_empty (sys.hostname ("https://" ^^ v)) in
    if v == ""
    then ""
    else if contains v "://"
    then elim (sys.hostname v) [ some h ↦ trim_space h | none ↦ as_host ]
    else as_host

unfoldable pub git_hub_request : System → AuthCredential → Request
unfolding normalize_copilot_domain
git_hub_request sys cred = record {
  method = "GET";
  url =
      "https://api."
      ^^ first_set (normalize_copilot_domain sys cred.enterprise_url) "github.com"
      ^^ "/copilot_internal/v2/token";
  header =
      ("Accept", "application/json")
      ∷ ("Authorization", "Bearer " ^^ cred.refresh)
      ∷ ("User-Agent", "GitHubCopilotChat/0.35.0")
      ∷ ("Editor-Version", "vscode/1.107.0")
      ∷ ("Editor-Plugin-Version", "copilot-chat/0.35.0")
      ∷ ("Copilot-Integration-Id", "vscode-chat")
      ∷ [];
  fields = [];
}

-- The end of the refresh for GitHub, whose answer has the time itself.
unfoldable pub with_git_hub_token : AuthCredential → TokenReply → Result AuthCredential
with_git_hub_token cred out =
    if (out.token == "") || not (is_positive out.expires_at)
    then err "github-copilot token refresh response missing fields"
    else ok (record cred {
      access = out.token;
      access_token = out.token;
      expires = int64_sub (int64_mul out.expires_at 1000) 300000;
    })

-- refreshGitHubCopilotCredential
unfoldable pub refresh_git_hub_copilot_credential : System → AuthCredential → Result AuthCredential
refresh_git_hub_copilot_credential sys cred =
    then_ok (tokens_of "github-copilot" (sys.send (git_hub_request sys cred)))
      (with_git_hub_token cred)

-- refreshOAuthCredential
unfoldable pub refresh_o_auth_credential : System → String → AuthCredential → Result AuthCredential
refresh_o_auth_credential sys provider cred =
    let env = λ (name : String). trim_space (sys.getenv name) in
    if provider == "openai-codex"
    then refresh_open_ai_codex_credential sys cred
    else if provider == "anthropic"
    then refresh_anthropic_credential sys cred
    else if provider == "google-gemini-cli"
    then refresh_google_credential sys cred (env "GOOGLE_GEMINI_CLI_CLIENT_ID")
        (env "GOOGLE_GEMINI_CLI_CLIENT_SECRET")
    else if provider == "google-antigravity"
    then refresh_google_credential sys cred (env "GOOGLE_ANTIGRAVITY_CLIENT_ID")
        (env "GOOGLE_ANTIGRAVITY_CLIENT_SECRET")
    else if provider == "github-copilot"
    then refresh_git_hub_copilot_credential sys cred
    else err ("oauth refresh unsupported for provider " ^^ provider)

-- Whether the credential has no token, or an expired one.
unfoldable pub needs_refresh : ℕ → AuthCredential → Bool
needs_refresh now cred =
    (first_set (trim_space cred.access_token) (trim_space cred.access) == "")
    || (is_positive cred.expires && int64_leb cred.expires now)

-- The fields that a refresh left out.
unfoldable pub completed : AuthCredential → AuthCredential → AuthCredential
completed cred r =
    let token = first_set r.access_token r.access in
    record r {
      access_token = token;
      access = first_set r.access token;
      refresh = first_set r.refresh cred.refresh;
    }

-- refreshOAuthCredentialIfNeeded: the new credential, and none where it stays.
unfoldable pub refresh_if_needed : System → String → AuthCredential → Option AuthCredential
refresh_if_needed sys provider cred =
    if (trim_space cred.refresh == "") || not (needs_refresh sys.now cred)
    then none
    else elim (refresh_o_auth_credential sys provider cred) [
      | err e ↦ none
      | ok r ↦ some (completed cred r)
    ]
