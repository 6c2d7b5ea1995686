-- ===== src/Agent/Runtime/Models.antt =====
-- internal/agent/runtime.go: the model and the thinking level, set and cycled.
use pi_go_coding_agent.Base.{
  ℕ, zero, suc, ◌%◌, String, List, [], ◌∷◌, Option, none, some, length, get_elem?, leb, ◌==◌,
  if◌then◌else◌,
}
use pi_go_coding_agent.Base.Text.{trim_space, equal_fold}
use pi_go_coding_agent.Session.World.{ok, err}
use pi_go_coding_agent.Session.Append.{
  append_model_change, append_thinking_level, append_session_name,
}
use pi_go_coding_agent.Config.Models.{Model}
use pi_go_coding_agent.Config.Models.Search.{resolve_model, available_models, matches_both}
use pi_go_coding_agent.Config.Auth.Storage.{has_auth}
use pi_go_coding_agent.Agent.Runtime.{Runtime, Environment, Host, ◌>>=◌, return, on_session}

abbrev pub become_model : Model → Host (Unit {0})
become_model m r = (ok tt, record r { model = m })

abbrev pub become_level : String → Host (Unit {0})
become_level level r = (ok tt, record r { thinking_level = level })

-- AvailableModels
unfoldable pub models_available : Environment → Runtime → List Model
models_available env r = available_models (has_auth env.system r.auth.auth) r.model_registry

-- The place of the first model with this provider and identifier.
unfoldable pub index_of_model : Model → List Model → Option ℕ
index_of_model current [] = none
index_of_model current (m ∷ ms) =
    let rest = index_of_model current ms in
    if matches_both current.provider current.id m
    then some 0
    else elim rest [ none ↦ none | some i ↦ some (suc i) ]

abbrev pub place_after : Option ℕ → ℕ → ℕ
place_after none zero = 0
place_after none (suc n) = 0
place_after (some i) zero = 0
place_after (some i) (suc n) = suc i % suc n

-- The model after the current one, and the first if that is not there.
unfoldable pub next_model : Model → List Model → Option Model
next_model current ms = get_elem? ms (place_after (index_of_model current ms) (length ms))

-- The place of a level in thinkingLevelCycle, where the level is in lower case.
unfoldable pub level_after : String → Option String
level_after level =
    if equal_fold level "low"
    then some "medium"
    else if equal_fold level "medium"
    then some "high"
    else if equal_fold level "high"
    then some "low"
    else none

module _ (env : Environment) where
  -- SetModel
  unfoldable pub set_model : String → String → Host (Unit {0})
  set_model provider model_id r = elim (resolve_model r.model_registry provider model_id) [
    | err why ↦ (err why, r)
    | ok m ↦
        (on_session (append_model_change env.outside provider model_id) >>= λ _. become_model m) r
  ]

  -- CycleModel: none where there is no model to cycle to.
  unfoldable pub cycle_model : Host (Option Model)
  unfolding next_model index_of_model
  cycle_model r =
      let ms = models_available env r in
      if leb (length ms) 1 then (ok none, r) else elim (next_model r.model ms) [
        | none ↦ (ok none, r)
        | some next ↦ (set_model next.provider next.id >>= λ _. return (some next)) r
      ]

  -- SetThinkingLevel
  unfoldable pub set_thinking_level : String → Host (Unit {0})
  set_thinking_level text r =
      let level = trim_space text in
      if level == ""
      then (err "thinking level is empty", r)
      else (on_session (append_thinking_level env.outside level) >>= λ _. become_level level) r

  -- CycleThinkingLevel: none where the level is not one of the cycle.
  unfoldable pub cycle_thinking_level : Host (Option String)
  unfolding level_after
  cycle_thinking_level r = elim (level_after (trim_space r.thinking_level)) [
    | none ↦ (ok none, r)
    | some next ↦ (set_thinking_level next >>= λ _. return (some next)) r
  ]

  -- SetSessionName
  unfoldable pub set_session_name : String → Host (Unit {0})
  set_session_name text r =
      let name = trim_space text in
      if name == ""
      then (err "session name is empty", r)
      else (on_session (append_session_name env.outside name) >>= λ _. return tt) r
