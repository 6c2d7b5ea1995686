-- ===== src/Config/Auth/Tokens.antt =====
-- internal/config/auth.go: the tokens of a refreshed credential.
use pi_go_coding_agent.Base.{
  String, Bool, true, false, none, some, ◌≡◌, refl, arith, subst, not, ◌⊎◌, inl, ◌==◌, ◌||◌,
  if◌then◌else◌,
}
use pi_go_coding_agent.Base.Text.{trim_space}
use pi_go_coding_agent.Session.World.{Result, ok, err}
use pi_go_coding_agent.Config.Auth.{AuthCredential, System, TokenReply, first_set}
use pi_go_coding_agent.Config.Auth.Refresh.{
  then_ok, with_tokens, with_git_hub_token, refresh_open_ai_codex_credential,
  refresh_anthropic_credential, refresh_google_credential, refresh_git_hub_copilot_credential,
  refresh_o_auth_credential, refresh_if_needed, completed, needs_refresh,
}

-- A new credential has one token in both fields, and the old refresh token or a new one.
abbrev pub Refreshed : AuthCredential → AuthCredential → Type 0
Refreshed cred r =
    ((r.access_token == "") ≡ false)
    × ((r.access ≡ r.access_token)
        × ((r.type ≡ cred.type)
            × ((r.project_id ≡ cred.project_id)
                × ((r.refresh ≡ cred.refresh) ⊎ ((r.refresh == "") ≡ false)))))

abbrev OkRefreshed : AuthCredential → Result AuthCredential → Type 0
OkRefreshed cred (err e) = Unit
OkRefreshed cred (ok r) = Refreshed cred r

ok_if :
    (cred r : AuthCredential) (e : String) (t : Bool)
    → (t ≡ false → Refreshed cred r)
    → OkRefreshed cred (if t then err e else ok r)
ok_if cred r e true h = tt
ok_if cred r e false h = h refl

keeps :
    (cred : AuthCredential) (t : Bool) (a b : Result AuthCredential)
    → OkRefreshed cred a
    → OkRefreshed cred b
    → OkRefreshed cred (if t then a else b)
keeps cred true a b p q = p
keeps cred false a b p q = q

then_ok-OkRefreshed :
    (cred : AuthCredential) (t : Result TokenReply) (f : TokenReply → Result AuthCredential)
    → ((out : TokenReply) → OkRefreshed cred (f out))
    → OkRefreshed cred (then_ok t f)
then_ok-OkRefreshed cred (ok out) f h = h out
then_ok-OkRefreshed cred (err e) f h = tt

kept_or_set : (s t : String) → (first_set s t ≡ t) ⊎ ((first_set s t == "") ≡ false)
kept_or_set s t = ground arith

with_tokens-OkRefreshed :
    (name : String) (sys : System) (cred : AuthCredential) (out : TokenReply)
    → OkRefreshed cred (with_tokens name sys cred out)
unfolding with_tokens
with_tokens-OkRefreshed name sys cred out =
    ok_if cred _ _ _
      (λ h. (ground arith, (refl, (refl, (refl, kept_or_set out.refresh_token cred.refresh)))))

with_git_hub_token-OkRefreshed :
    (cred : AuthCredential) (out : TokenReply) → OkRefreshed cred (with_git_hub_token cred out)
unfolding with_git_hub_token
with_git_hub_token-OkRefreshed cred out =
    ok_if cred _ _ _ (λ h. (ground arith, (refl, (refl, (refl, inl refl)))))

refresh_google-OkRefreshed :
    (sys : System) (cred : AuthCredential) (client_id client_secret : String)
    → OkRefreshed cred (refresh_google_credential sys cred client_id client_secret)
unfolding refresh_google_credential
refresh_google-OkRefreshed sys cred client_id client_secret =
    keeps cred ((client_id == "") || (client_secret == "")) _ _ tt
      (then_ok-OkRefreshed cred _ _ (with_tokens-OkRefreshed "google" sys cred))

refresh-OkRefreshed :
    (sys : System) (provider : String) (cred : AuthCredential)
    → OkRefreshed cred (refresh_o_auth_credential sys provider cred)
unfolding refresh_o_auth_credential refresh_open_ai_codex_credential refresh_anthropic_credential
    refresh_git_hub_copilot_credential
refresh-OkRefreshed sys provider cred =
    keeps cred (provider == "openai-codex") _ _
      (then_ok-OkRefreshed cred _ _ (with_tokens-OkRefreshed "openai-codex" sys cred))
      (keeps cred (provider == "anthropic") _ _
        (then_ok-OkRefreshed cred _ _ (with_tokens-OkRefreshed "anthropic" sys cred))
        (keeps cred (provider == "google-gemini-cli") _ _ (refresh_google-OkRefreshed sys cred _ _)
          (keeps cred (provider == "google-antigravity") _ _
            (refresh_google-OkRefreshed sys cred _ _)
            (keeps cred (provider == "github-copilot") _ _
              (then_ok-OkRefreshed cred _ _ (with_git_hub_token-OkRefreshed cred)) tt))))

completed-Refreshed :
    (cred r : AuthCredential) → Refreshed cred r → Refreshed cred (completed cred r)
unfolding completed
completed-Refreshed cred r (set, (same, (type, (project, new)))) =
    (ground arith, (ground arith, (type, (project, ground arith))))

new_if :
    (cred c : AuthCredential) (r : Result AuthCredential) (t : Bool)
    → OkRefreshed cred r
    → (if t then none else elim r [ err e ↦ none | ok r ↦ some (completed cred r) ]) ≡ some c
    → Refreshed cred c
new_if cred c r true h same = ground arith
new_if cred c (err e) false h same = ground arith
new_if cred c (ok r) false h same =
    let is_new : completed cred r ≡ c = ground arith in
    subst (Refreshed cred) is_new (completed-Refreshed cred r h)

-- Where a refresh gives a new credential, it is one with a token.
pub refresh_if_needed-Refreshed :
    (sys : System) (provider : String) (cred c : AuthCredential)
    → refresh_if_needed sys provider cred ≡ some c
    → Refreshed cred c
unfolding refresh_if_needed
refresh_if_needed-Refreshed sys provider cred c h =
    new_if cred c (refresh_o_auth_credential sys provider cred)
      ((trim_space cred.refresh == "") || not (needs_refresh sys.now cred))
      (refresh-OkRefreshed sys provider cred) h
