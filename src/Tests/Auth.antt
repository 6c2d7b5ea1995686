-- ===== src/Tests/Auth.antt =====
-- internal/config/auth.go: the theorems on small inputs.
use pi_go_coding_agent.Base.{
  false, [], ◌∷◌, none, ◌≡◌, refl, arith, string_discrete, not, leb, ◌==◌, inl, ◌+◌, ◌-◌, ◌*◌,
}
use native.Mathlib.Decide.{ℕ_discrete}
use pi_go_coding_agent.Base.Text.{trim_space, trim_left, trim_right, is_space}
use pi_go_coding_agent.Base.Dict.{lookup}
use pi_go_coding_agent.Session.World.{err}
use pi_go_coding_agent.Config.Auth.{AuthCredential, System, TokenReply, Store}
use pi_go_coding_agent.Config.Auth.Refresh.{with_tokens, needs_refresh, expiry}
use pi_go_coding_agent.Config.Auth.Storage.{get_api_key, has_auth, has_token}
use pi_go_coding_agent.Config.Auth.Keys.{get_api_key-has_auth}
use pi_go_coding_agent.Config.Auth.Expiry.{with_tokens-needs_refresh}

abbrev pub system : System
system = record {
  getenv = λ name. "";
  now = 1700000000000;
  received = 1700000000500;
  send = λ q. err "no network";
  hostname = λ url. none;
  write_fails = false;
}

abbrev credential : AuthCredential
credential = record {
  type = "oauth";
  key = "";
  access_token = "old";
  access = "old";
  refresh = "again";
  expires = 1600000000000;
  project_id = "";
  enterprise_url = "";
}

abbrev pub store : Store
store = record {
  auth = record { credentials = ("anthropic", credential) ∷ []; overrides = []; fallback = none };
  file = none;
}

get_api_key-has_auth_example :
    ((get_api_key system "anthropic" store).0 == "") ≡ not (has_auth system store.auth "anthropic")
unfolding lookup string_discrete has_token
get_api_key-has_auth_example =
    get_api_key-has_auth system store "anthropic"
      (λ same. ground (arith, same), ((refl, inl refl), refl))

abbrev reply : TokenReply
reply = record {
  access_token = "new";
  refresh_token = "";
  expires_in = 3600;
  token = "";
  expires_at = 0;
}

abbrev renewed : AuthCredential
renewed = record credential { access_token = "new"; access = "new"; expires = 1700003300500 }

with_tokens-needs_refresh_example :
    needs_refresh 1700000001000 renewed ≡ leb (1700000000500 + 3600 * 1000 - 300000) 1700000001000
unfolding with_tokens expiry string_discrete trim_space trim_left trim_right is_space ℕ_discrete
with_tokens-needs_refresh_example =
    with_tokens-needs_refresh "anthropic" system credential renewed reply 1700000001000
      (omega arith) (omega arith) (omega arith) (omega arith) refl refl
