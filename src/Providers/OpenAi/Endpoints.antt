-- ===== src/Providers/OpenAi/Endpoints.antt =====
-- internal/providers/openai.go: the addresses of the services, and the key. The environment is a
-- function; a name that is not set gives the empty text. `query_escape` is url.QueryEscape.
use pi_go_coding_agent.Base.{
  String, List, [], ◌∷◌, Option, none, some, ◌==◌, ◌&&◌, not, if◌then◌else◌,
}
use pi_go_coding_agent.Base.Text.{trim_space, equal_fold, ◌^^◌}
use pi_go_coding_agent.Base.Strings.{trim_suffix, has_suffix, contains, cut_at, split_on}
use pi_go_coding_agent.Session.World.{Result, ok, err}
use pi_go_coding_agent.Config.Models.{Model, ProviderConfig}
use pi_go_coding_agent.Providers.OpenAi.Ids.{text_or}

abbrev pub default_open_ai_base_url : String
default_open_ai_base_url = "https://api.openai.com/v1"

abbrev pub default_codex_base_url : String
default_codex_base_url = "https://chatgpt.com/backend-api"

pub data Mode : Type 0 where
  open_ai_mode codex_mode azure_mode : Mode

abbrev pub without_slash : String → String
without_slash s = trim_suffix s "/"

-- resolveBaseURL
unfoldable pub resolve_base_url : Model → ProviderConfig → String → String
resolve_base_url model cfg fallback = without_slash (
    text_or (trim_space (without_slash model.base_url))
      (text_or (trim_space (without_slash cfg.base_url)) fallback))

-- resolveAPIKey: the key of the request, that of the client, or that of the configuration
unfoldable pub resolve_api_key : String → String → ProviderConfig → String
resolve_api_key requested own cfg = text_or requested (text_or own cfg.api_key)

-- resolveOpenAIChatCompletionsURL
unfoldable pub resolve_chat_completions_url : String → Model → String
resolve_chat_completions_url base model =
    let root = without_slash base in
    if model.api == "azure-openai-responses"
    then if contains root "/openai/deployments/"
      then root ^^ "/chat/completions?api-version=2024-10-21"
      else root ^^ "/openai/deployments/" ^^ model.id ^^ "/chat/completions?api-version=2024-10-21"
    else root ^^ "/chat/completions"

-- resolveOpenAIResponsesURL
unfoldable pub resolve_open_ai_responses_url : String → String
resolve_open_ai_responses_url base =
    let root = text_or (without_slash base) default_open_ai_base_url in
    if has_suffix root "/responses" then root else root ^^ "/responses"

-- resolveCodexResponsesURL
unfoldable pub resolve_codex_responses_url : String → String
resolve_codex_responses_url base =
    let root = text_or (without_slash (trim_space base)) default_codex_base_url in
    if has_suffix root "/codex/responses"
    then root
    else if has_suffix root "/codex"
    then root ^^ "/responses"
    else root ^^ "/codex/responses"

module _ (getenv : String → String) where
  -- resolveAzureBaseURL
  unfoldable pub resolve_azure_base_url : String → String
  resolve_azure_base_url base =
      let root = without_slash (trim_space base) in
      let v₁ = trim_space (getenv "AZURE_OPENAI_BASE_URL") in
      let v₂ = trim_space (getenv "AZURE_OPENAI_ENDPOINT") in
      let resource = trim_space (getenv "AZURE_OPENAI_RESOURCE_NAME") in
      if not (root == "")
      then root
      else if not (v₁ == "")
      then without_slash v₁
      else if not (v₂ == "")
      then without_slash v₂
      else if resource == ""
      then ""
      else "https://" ^^ resource ^^ ".openai.azure.com/openai/v1"

  module _ (query_escape : String → String) where
    -- resolveAzureResponsesURL
    unfoldable pub resolve_azure_responses_url : String → String → String
    resolve_azure_responses_url base api_version =
        let root = without_slash (trim_space base) in
        let u = root ^^ "/responses" in
        let sep = if contains u "?" then "&" else "?" in
        if contains root "/openai/deployments/"
        then if contains u "api-version="
          then u
          else u ^^ sep ^^ "api-version=" ^^ query_escape api_version
        else if has_suffix root "/openai/v1"
        then u
        else if contains root ".openai.azure.com"
        then root ^^ "/openai/v1/responses"
        else if has_suffix root "/responses"
        then root
        else u

    -- resolveResponsesEndpoint
    unfoldable pub resolve_responses_endpoint : Model → ProviderConfig → Mode → Result String
    unfolding resolve_base_url resolve_codex_responses_url resolve_open_ai_responses_url
    resolve_responses_endpoint model cfg codex_mode =
        ok (resolve_codex_responses_url (resolve_base_url model cfg default_codex_base_url))
    resolve_responses_endpoint model cfg azure_mode =
        let base = resolve_azure_base_url (resolve_base_url model cfg "") in
        let api_version = text_or (trim_space (getenv "AZURE_OPENAI_API_VERSION")) "v1" in
        if base == ""
        then err
            "azure-openai-responses requires AZURE_OPENAI_BASE_URL or AZURE_OPENAI_RESOURCE_NAME"
        else ok (resolve_azure_responses_url base api_version)
    resolve_responses_endpoint model cfg open_ai_mode =
        ok (resolve_open_ai_responses_url (resolve_base_url model cfg default_open_ai_base_url))

-- The value of an entry `key=value` of the mapping, if it is about the model.
entry_value : String → String → Option String
entry_value model_id entry =
    let (key, rest) = cut_at 61 (trim_space entry) in
    elim rest [
      | none ↦ none
      | some value ↦
          if equal_fold (trim_space key) model_id && not (trim_space value == "")
          then some (trim_space value)
          else none
    ]

deployment_in : String → List String → String
unfolding entry_value
deployment_in model_id [] = model_id
deployment_in model_id (e ∷ es) = elim (entry_value model_id e) [
  | some value ↦ value
  | none ↦ deployment_in model_id es
]

-- resolveAzureDeploymentName
unfoldable pub resolve_azure_deployment_name : String → String → String
unfolding deployment_in
resolve_azure_deployment_name model_id mapping =
    if trim_space mapping == ""
    then model_id
    else deployment_in model_id (split_on 44 (trim_space mapping))
