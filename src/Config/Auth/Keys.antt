-- ===== src/Config/Auth/Keys.antt =====
-- internal/config/auth.go: what HasAuth, ProviderAuthType and GetAPIKey say of each other.
use text.Mathlib.TextLemmas.{cons-append, cons≢nil}
use pi_go_coding_agent.Base.{
  String, true, false, Option, none, some, ◌≡◌, ◌≢◌, refl, arith, not, sym, ◌∙◌, ◌==◌, ◌||◌,
  ==-refl, ==→≡, ≢→==, if◌then◌else◌,
}
use pi_go_coding_agent.Base.{string_discrete, ◌⊎◌, inl, inr}
use pi_go_coding_agent.Base.Text.{trim_space, ◌^^◌}
use pi_go_coding_agent.Base.Dict.{lookup, has_key}
use pi_go_coding_agent.Config.Auth.{AuthCredential, System, AuthStorage, Store, first_set}
use pi_go_coding_agent.Config.Auth.Refresh.{refresh_if_needed}
use pi_go_coding_agent.Config.Auth.Tokens.{Refreshed, refresh_if_needed-Refreshed}
use pi_go_coding_agent.Config.Auth.Storage.{
  has_auth, provider_auth_type, has_other_key, has_token, other_key, o_auth_key,
  resolve_config_value, resolved_fallback, dollar_name, fallback_key, google_key, stored_key,
  refreshed_key, without_override, with_override, get_api_key, has_stored_key, stored_auth_type,
}

api_key_set : ("api_key" == "") ≡ false
unfolding string_discrete
api_key_set = refl

oauth_set : ("oauth" == "") ≡ false
unfolding string_discrete
oauth_set = refl

oauth≢api_key : ("oauth" == "api_key") ≡ false
unfolding string_discrete
oauth≢api_key = refl

has_stored_key-stored_auth_type :
    (sys : System) (a : AuthStorage) (provider : String) (c : Option AuthCredential)
    → has_stored_key sys a provider c ≡ not (stored_auth_type sys a provider c == "")
unfolding has_stored_key stored_auth_type
has_stored_key-stored_auth_type sys a provider none = ground (arith, api_key_set, ==-refl "")
has_stored_key-stored_auth_type sys a provider (some c) = ground (
  arith,
  api_key_set,
  oauth_set,
  oauth≢api_key,
  ==-refl "",
  ==→≡ c.type "oauth",
  ==→≡ c.type "api_key",
)

-- HasAuth says yes where ProviderAuthType names a type.
pub has_auth-provider_auth_type :
    (sys : System) (a : AuthStorage) (provider : String)
    → has_auth sys a provider ≡ not (provider_auth_type sys a provider == "")
unfolding has_auth provider_auth_type
has_auth-provider_auth_type sys a provider = ground (
  arith,
  api_key_set,
  has_stored_key-stored_auth_type sys a provider (lookup provider a.credentials),
)

-- Without a name of an environment variable for a key, and without a refresh token alone.
abbrev pub IsPlainCredential : Option AuthCredential → Type 0
IsPlainCredential none = Unit
IsPlainCredential (some c) =
    (dollar_name c.key ≡ none) × ((has_token c ≡ true) ⊎ ((trim_space c.refresh == "") ≡ true))

-- The conditions under which a key that is there is a key that can be used.
abbrev pub IsPlain : System → AuthStorage → String → Type 0
IsPlain sys a provider =
    (lookup provider a.overrides ≢ some "")
    × (IsPlainCredential (lookup provider a.credentials)
        × (dollar_name (fallback_key a.fallback provider) ≡ none))

plain_value : (sys : System) (v : String) → dollar_name v ≡ none → resolve_config_value sys v ≡ v
unfolding resolve_config_value
plain_value sys v plain = ground arith

resolved_fallback-fallback_key :
    (sys : System) (f : Option (String → String)) (provider : String)
    → dollar_name (fallback_key f provider) ≡ none
    → resolved_fallback sys f provider ≡ fallback_key f provider
unfolding resolved_fallback
resolved_fallback-fallback_key sys none provider plain = refl
resolved_fallback-fallback_key sys (some fn) provider plain = plain_value sys (fn provider) plain

other_key-has_other_key :
    (sys : System) (a : AuthStorage) (provider : String)
    → dollar_name (fallback_key a.fallback provider) ≡ none
    → (other_key sys a provider == "") ≡ not (has_other_key sys a provider)
unfolding other_key has_other_key
other_key-has_other_key sys a provider plain =
    ground (arith, resolved_fallback-fallback_key sys a.fallback provider plain)

append_set : (s t : String) → (s == "") ≡ false → (s ^^ t == "") ≡ false
append_set String.[] t h = absurd (ground (arith, ==-refl ""))
append_set (String.◌∷◌ c s) t h = ≢→== _ _ (λ same. cons≢nil (sym (cons-append c s t) ∙ same))

google_start : ("{\"projectId\":\"" == "") ≡ false
unfolding string_discrete
google_start = refl

google_key_set : (token project : String) → (google_key token project == "") ≡ false
unfolding google_key
google_key_set token project =
    append_set _ _ (append_set _ _ (append_set _ _ (append_set _ _ google_start)))

o_auth_key-has_token :
    (sys : System) (a : AuthStorage) (provider : String) (c : AuthCredential)
    → dollar_name (fallback_key a.fallback provider) ≡ none
    → (o_auth_key sys a provider c == "") ≡ not (has_token c || has_other_key sys a provider)
unfolding o_auth_key has_token
o_auth_key-has_token sys a provider c plain = ground (
  arith,
  other_key-has_other_key sys a provider plain,
  google_key_set (first_set c.access_token c.access) c.project_id,
)

Refreshed-has_token : (c r : AuthCredential) → Refreshed c r → has_token r ≡ true
unfolding has_token
Refreshed-has_token c r (set, rest) = ground arith

not_refreshed :
    (sys : System) (provider : String) (c : AuthCredential)
    → (trim_space c.refresh == "") ≡ true
    → refresh_if_needed sys provider c ≡ none
unfolding refresh_if_needed
not_refreshed sys provider c blank = ground arith

refreshed_key-has_token :
    (sys : System) (s : Store) (provider : String) (c : AuthCredential) (r : Option AuthCredential)
    → refresh_if_needed sys provider c ≡ r
    → (has_token c ≡ true) ⊎ ((trim_space c.refresh == "") ≡ true)
    → dollar_name (fallback_key s.fallback provider) ≡ none
    → ((refreshed_key sys provider c r s).0 == "")
      ≡ not (has_token c || has_other_key sys s.auth provider)
unfolding refreshed_key
refreshed_key-has_token sys s provider c none h token plain =
    o_auth_key-has_token sys s.auth provider c plain
refreshed_key-has_token sys s provider c (some c') h (inl token) plain = ground (
  arith,
  o_auth_key-has_token sys s.auth provider c' plain,
  Refreshed-has_token c c' (refresh_if_needed-Refreshed sys provider c c' h),
)
refreshed_key-has_token sys s provider c (some c') h (inr blank) plain =
    absurd (ground (arith, not_refreshed sys provider c blank))

stored_key-has_stored_key :
    (sys : System) (s : Store) (provider : String) (c : AuthCredential)
    → IsPlainCredential (some c)
    → dollar_name (fallback_key s.fallback provider) ≡ none
    → ((stored_key sys provider c s).0 == "") ≡ not (has_stored_key sys s.auth provider (some c))
unfolding stored_key has_stored_key
stored_key-has_stored_key sys s provider c (key, token) plain = ground (
  arith,
  plain_value sys c.key key,
  refreshed_key-has_token sys s provider c (refresh_if_needed sys provider c) refl token plain,
  other_key-has_other_key sys s.auth provider plain,
  ==→≡ c.type "oauth",
  ==→≡ c.type "api_key",
  oauth≢api_key,
)

without_override-has_stored_key :
    (sys : System) (s : Store) (provider : String) (c : Option AuthCredential)
    → IsPlainCredential c
    → dollar_name (fallback_key s.fallback provider) ≡ none
    → ((without_override sys provider c s).0 == "") ≡ not (has_stored_key sys s.auth provider c)
unfolding without_override has_stored_key
without_override-has_stored_key sys s provider none h plain =
    other_key-has_other_key sys s.auth provider plain
without_override-has_stored_key sys s provider (some c) h plain =
    stored_key-has_stored_key sys s provider c h plain

with_override-has_auth :
    (sys : System) (s : Store) (provider : String) (v : Option String)
    → v ≢ some ""
    → IsPlainCredential (lookup provider s.credentials)
    → dollar_name (fallback_key s.fallback provider) ≡ none
    → ((with_override sys provider v s).0 == "")
      ≡ not (
          if elim v [ none ↦ false | some w ↦ true ]
          then true
          else has_stored_key sys s.auth provider (lookup provider s.credentials))
unfolding with_override
with_override-has_auth sys s provider none set stored plain =
    without_override-has_stored_key sys s provider (lookup provider s.credentials) stored plain
with_override-has_auth sys s provider (some v) set stored plain = ground arith

-- GetAPIKey gives a key where HasAuth says that there is one, and only there, if no override is
-- empty, neither the stored key nor the fallback names an environment variable, and no
-- credential has a refresh token but no access token.
pub get_api_key-has_auth :
    (sys : System) (s : Store) (provider : String)
    → IsPlain sys s.auth provider
    → ((get_api_key sys provider s).0 == "") ≡ not (has_auth sys s.auth provider)
unfolding get_api_key has_auth has_key
get_api_key-has_auth sys s provider (set, (stored, plain)) =
    with_override-has_auth sys s provider (lookup provider s.overrides) set stored plain
