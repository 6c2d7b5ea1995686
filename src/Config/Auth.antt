-- ===== src/Config/Auth.antt =====
-- internal/config/auth.go: the stored credentials and what they are read from. A request of an
-- access token is the list of its fields, which the code encodes as a form or as JSON; its reply
-- holds the fields that the JSON decoder finds, or none where it fails.
pub mod Refresh
pub mod Storage
pub mod Tokens
pub mod Keys
pub mod Expiry
use pi_go_coding_agent.Base.{
  ℕ, String, Bool, false, List, [], ◌∷◌, Option, none, some, ◌==◌, not, if◌then◌else◌,
}
use pi_go_coding_agent.Base.Int64.{Int64}
use pi_go_coding_agent.Base.Dict.{Dict, lookup}
use pi_go_coding_agent.Session.World.{Result}

pub record AuthCredential : Type 0 where
  pub type : String
  pub key : String
  pub access_token : String
  pub access : String
  pub refresh : String
  pub expires : Int64
  pub project_id : String
  pub enterprise_url : String

pub record Request : Type 0 where
  pub method : String
  pub url : String
  pub header : Dict String
  pub fields : Dict String

-- The answer of GitHub has `token` and `expires_at`, the others the first three.
pub record TokenReply : Type 0 where
  pub access_token : String
  pub refresh_token : String
  pub expires_in : Int64
  pub token : String
  pub expires_at : Int64

pub record Reply : Type 0 where
  pub status_code : ℕ
  pub body : String
  pub decoded : Option TokenReply

pub record System : Type 0 where
  -- os.Getenv
  pub getenv : String → String
  -- time.Now().UnixMilli(), before a request and after its reply
  pub now : ℕ
  pub received : ℕ
  -- oauthHTTPClient.Do
  pub send : Request → Result Reply
  -- url.Parse and Hostname
  pub hostname : String → Option String
  -- whether os.WriteFile fails
  pub write_fails : Bool

pub record AuthStorage : Type 0 where
  pub credentials : Dict AuthCredential
  pub overrides : Dict String
  pub fallback : Option (String → String)

-- The storage and the content of its file, if that can be read.
pub record Store : Type 0 where
  pub auth : AuthStorage
  pub open auth use *
  pub file : Option (Dict AuthCredential)

abbrev pub or_empty : Option String → String
or_empty none = ""
or_empty (some s) = s

abbrev pub first_set : String → String → String
first_set s t = if s == "" then t else s

-- envMap
abbrev env_vars : Dict String
env_vars =
    ("openai", "OPENAI_API_KEY")
    ∷ ("azure-openai-responses", "AZURE_OPENAI_API_KEY")
    ∷ ("google", "GEMINI_API_KEY")
    ∷ ("google-gemini-cli", "GOOGLE_API_KEY")
    ∷ ("google-antigravity", "GOOGLE_API_KEY")
    ∷ ("google-vertex", "GOOGLE_VERTEX_ACCESS_TOKEN")
    ∷ ("groq", "GROQ_API_KEY")
    ∷ ("cerebras", "CEREBRAS_API_KEY")
    ∷ ("xai", "XAI_API_KEY")
    ∷ ("openrouter", "OPENROUTER_API_KEY")
    ∷ ("vercel-ai-gateway", "AI_GATEWAY_API_KEY")
    ∷ ("zai", "ZAI_API_KEY")
    ∷ ("mistral", "MISTRAL_API_KEY")
    ∷ ("minimax", "MINIMAX_API_KEY")
    ∷ ("minimax-cn", "MINIMAX_CN_API_KEY")
    ∷ ("huggingface", "HF_TOKEN")
    ∷ ("opencode", "OPENCODE_API_KEY")
    ∷ ("kimi-coding", "KIMI_API_KEY")
    ∷ ("openai-codex", "OPENAI_API_KEY")
    ∷ []

-- envAPIKey
unfoldable pub env_api_key : System → String → String
env_api_key sys provider =
    if provider == "anthropic"
    then first_set (sys.getenv "ANTHROPIC_OAUTH_TOKEN") (sys.getenv "ANTHROPIC_API_KEY")
    else if provider == "github-copilot"
    then first_set (sys.getenv "COPILOT_GITHUB_TOKEN")
        (first_set (sys.getenv "GH_TOKEN") (sys.getenv "GITHUB_TOKEN"))
    else elim (lookup provider env_vars) [ none ↦ "" | some name ↦ sys.getenv name ]
