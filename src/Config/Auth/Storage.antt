-- ===== src/Config/Auth/Storage.antt =====
-- internal/config/auth.go: the keys of the providers.
use Prim.Native.Char.{code, Char}
use Prim.Native.String
use pi_go_coding_agent.Base.{
  ℕ, suc, ◌/◌, ◌%◌, String, Bool, true, [], ◌∷◌, Option, none, some, ltb, ℕ_discrete, not, ◌==◌,
  ◌&&◌, ◌||◌, if◌then◌else◌,
}
use pi_go_coding_agent.Base.Text.{◌^^◌}
use pi_go_coding_agent.Base.Strings.{is_code}
use pi_go_coding_agent.Base.Dict.{Dict, lookup, insert, has_key}
use pi_go_coding_agent.Config.Auth.{
  AuthCredential, System, AuthStorage, Store, env_api_key, first_set,
}
use pi_go_coding_agent.Config.Auth.Refresh.{refresh_if_needed}

hex_digit : ℕ → String
hex_digit n = String.slice "0123456789abcdef" n (suc n)

escaped_code : ℕ → String
unfolding hex_digit
escaped_code n =
    "\\u"
    ^^ hex_digit (n / 4096)
    ^^ hex_digit (n / 256 % 16)
    ^^ hex_digit (n / 16 % 16)
    ^^ hex_digit (n % 16)

-- A character in a JSON text, as json.Marshal writes it.
escaped : Char → String
unfolding escaped_code ℕ_discrete
escaped c =
    let n = code c in
    if is_code n 34
    then "\\\""
    else if is_code n 92
    then "\\\\"
    else if is_code n 8
    then "\\b"
    else if is_code n 12
    then "\\f"
    else if is_code n 10
    then "\\n"
    else if is_code n 13
    then "\\r"
    else if is_code n 9
    then "\\t"
    else if ltb n 32
        || is_code n 60
        || is_code n 62
        || is_code n 38
        || is_code n 8232
        || is_code n 8233
    then escaped_code n
    else String.◌∷◌ c ""

escape : String → String
unfolding escaped
escape String.[] = ""
escape (String.◌∷◌ c s) = let rest = escape s in escaped c ^^ rest

-- The token with the project, as JSON: json.Marshal sorts the keys.
unfoldable pub google_key : String → String → String
unfolding escape
google_key token project =
    "{\"projectId\":\"" ^^ escape project ^^ "\",\"token\":\"" ^^ escape token ^^ "\"}"

abbrev pub dollar_name : String → Option String
dollar_name String.[] = none
dollar_name (String.◌∷◌ c s) = if is_code (code c) 36 then some s else none

-- resolveConfigValue
unfoldable pub resolve_config_value : System → String → String
resolve_config_value sys v = elim (dollar_name v) [ some name ↦ sys.getenv name | none ↦ v ]

add_credentials : Dict AuthCredential → Dict AuthCredential → Dict AuthCredential
add_credentials [] d = d
add_credentials ((k, c) ∷ cs) d = add_credentials cs (insert k c d)

-- reload
unfoldable pub reload : Store → Store
unfolding add_credentials
reload s = elim s.file [
  | none ↦ s
  | some cs ↦ record s { auth = record s.auth { credentials = add_credentials cs s.credentials } }
]

-- NewAuthStorage
unfoldable pub new_auth_storage : Option (Dict AuthCredential) → Store
new_auth_storage file =
    reload
      (record { auth = record { credentials = []; overrides = []; fallback = none }; file = file })

-- SetRuntimeAPIKey
unfoldable pub set_runtime_api_key : String → String → Store → Store
set_runtime_api_key provider key s = record s {
  auth = record s.auth { overrides = insert provider key s.overrides };
}

-- SetFallbackResolver
unfoldable pub set_fallback_resolver : (String → String) → Store → Store
set_fallback_resolver fn s = record s { auth = record s.auth { fallback = some fn } }

-- persist
unfoldable pub persist : System → Store → Store
persist sys s = if sys.write_fails then s else record s { file = some s.credentials }

abbrev pub fallback_key : Option (String → String) → String → String
fallback_key none provider = ""
fallback_key (some fn) provider = fn provider

unfoldable pub has_token : AuthCredential → Bool
has_token c = not (c.access_token == "") || not (c.access == "")

-- The last places where a key is looked for: the environment, and the fallback.
unfoldable pub has_other_key : System → AuthStorage → String → Bool
has_other_key sys a provider =
    not (env_api_key sys provider == "") || not (fallback_key a.fallback provider == "")

unfoldable pub has_stored_key : System → AuthStorage → String → Option AuthCredential → Bool
has_stored_key sys a provider none = has_other_key sys a provider
has_stored_key sys a provider (some c) =
    if (c.type == "api_key") && not (c.key == "")
    then true
    else if (c.type == "oauth") && has_token c
    then true
    else has_other_key sys a provider

-- HasAuth
unfoldable pub has_auth : System → AuthStorage → String → Bool
has_auth sys a provider =
    if has_key provider a.overrides
    then true
    else has_stored_key sys a provider (lookup provider a.credentials)

abbrev other_auth_type : System → AuthStorage → String → String
other_auth_type sys a provider = if has_other_key sys a provider then "api_key" else ""

unfoldable pub stored_auth_type : System → AuthStorage → String → Option AuthCredential → String
stored_auth_type sys a provider none = other_auth_type sys a provider
stored_auth_type sys a provider (some c) =
    if c.type == "oauth"
    then if has_token c then "oauth" else other_auth_type sys a provider
    else if c.type == "api_key"
    then if c.key == "" then other_auth_type sys a provider else "api_key"
    else other_auth_type sys a provider

-- ProviderAuthType
unfoldable pub provider_auth_type : System → AuthStorage → String → String
provider_auth_type sys a provider =
    if has_key provider a.overrides
    then "api_key"
    else stored_auth_type sys a provider (lookup provider a.credentials)

-- IsUsingOAuth
unfoldable pub is_using_o_auth : System → AuthStorage → String → Bool
is_using_o_auth sys a provider = provider_auth_type sys a provider == "oauth"

unfoldable pub resolved_fallback : System → Option (String → String) → String → String
resolved_fallback sys none provider = ""
resolved_fallback sys (some fn) provider = resolve_config_value sys (fn provider)

unfoldable pub other_key : System → AuthStorage → String → String
other_key sys a provider =
    first_set (env_api_key sys provider) (resolved_fallback sys a.fallback provider)

-- The key that an OAuth credential gives, and the other keys where it has no token.
unfoldable pub o_auth_key : System → AuthStorage → String → AuthCredential → String
o_auth_key sys a provider c =
    let token = first_set c.access_token c.access in
    if token == ""
    then other_key sys a provider
    else if ((provider == "google-gemini-cli") || (provider == "google-antigravity"))
        && not (c.project_id == "")
    then google_key token c.project_id
    else token

-- a.data[provider] = c; a.persist()
unfoldable pub put_credential : System → String → AuthCredential → Store → Store
put_credential sys provider c s =
    persist sys
      (record s { auth = record s.auth { credentials = insert provider c s.credentials } })

-- The key of an OAuth credential, which a refresh may have replaced.
unfoldable pub refreshed_key :
    System → String → AuthCredential → Option AuthCredential → Store → String × Store
refreshed_key sys provider c none s = (o_auth_key sys s.auth provider c, s)
refreshed_key sys provider c (some c') s =
    (o_auth_key sys s.auth provider c', put_credential sys provider c' s)

unfoldable pub stored_key : System → String → AuthCredential → Store → String × Store
stored_key sys provider c s =
    if (c.type == "api_key") && not (c.key == "")
    then (resolve_config_value sys c.key, s)
    else if c.type == "oauth"
    then refreshed_key sys provider c (refresh_if_needed sys provider c) s
    else (other_key sys s.auth provider, s)

-- The key where no override is set.
unfoldable pub without_override : System → String → Option AuthCredential → Store → String × Store
without_override sys provider none s = (other_key sys s.auth provider, s)
without_override sys provider (some c) s = stored_key sys provider c s

unfoldable pub with_override : System → String → Option String → Store → String × Store
with_override sys provider none s = without_override sys provider (lookup provider s.credentials) s
with_override sys provider (some v) s =
    if v == "" then without_override sys provider (lookup provider s.credentials) s else (v, s)

-- GetAPIKey
unfoldable pub get_api_key : System → String → Store → String × Store
unfolding with_override
get_api_key sys provider s = with_override sys provider (lookup provider s.overrides) s
