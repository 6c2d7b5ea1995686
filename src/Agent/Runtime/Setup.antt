-- ===== src/Agent/Runtime/Setup.antt =====
-- internal/agent/runtime.go: the setup entries of a new session, and the change of the session.
use pi_go_coding_agent.Base.{
  String, Bool, true, false, List, [], ◌∷◌, Option, none, some, not, ◌==◌, ◌&&◌, ◌||◌,
  if◌then◌else◌,
}
use pi_go_coding_agent.Base.Text.{trim_space, equal_fold}
use pi_go_coding_agent.Base.Dict.{Dict, lookup, insert}
use pi_go_coding_agent.Types.{Json, null, bool, str, obj, Fields, lookup_field, is_empty_fields}
use pi_go_coding_agent.Session.Data.{Entry}
use pi_go_coding_agent.Session.World.{Result, ok, err, Action}
use pi_go_coding_agent.Session.Append.{
  append_message, append_model_change, append_thinking_level, append_custom_entry,
  append_custom_message, append_session_name, append_label,
}
use pi_go_coding_agent.Session.Context.{build_context}
use pi_go_coding_agent.Session.Open.{create_new, open_session}
use pi_go_coding_agent.Config.Models.{Model}
use pi_go_coding_agent.Config.Models.Search.{resolve_model}
use pi_go_coding_agent.Agent.Queues.{role_or_user, stamped_at}
use pi_go_coding_agent.Agent.Fork.{fork_session}
use pi_go_coding_agent.Agent.Runtime.{Environment, Host, ◌>>=◌, return, on_session}
use pi_go_coding_agent.Agent.Runtime.Models.{become_model, become_level}

-- anyString
unfoldable pub any_string : (Json → String) → Option Json → String
any_string sprint none = ""
any_string sprint (some null) = ""
any_string sprint (some (str s)) = s
any_string sprint (some v) = sprint v

-- anyMap
unfoldable pub any_map : Option Json → Option Fields
any_map (some (obj fs)) = if is_empty_fields fs then none else some fs
any_map _ = none

abbrev pub bool_or_true : Option Json → Bool
bool_or_true (some (bool b)) = b
bool_or_true _ = true

abbrev pub Refs : Type 0
Refs = Dict String

-- targetID of append_label: an entry that an earlier setup entry made, or one by its identifier.
abbrev pub target_of : Refs → String → String → String
target_of refs target_ref target_id =
    if target_ref == ""
    then target_id
    else elim (lookup target_ref refs) [ none ↦ target_id | some id ↦ id ]

abbrev pub note_ref : String → Entry → Refs → Refs
note_ref ref e refs = if ref == "" then refs else insert ref e.id refs

module _ (env : Environment) where
  abbrev pub text_at : String → Fields → String
  text_at key raw = trim_space (any_string env.sprint (lookup_field key raw))

  -- The method that a setup entry asks for, if it asks for one.
  unfoldable pub setup_action : Refs → Fields → Option (Action Entry)
  unfolding any_string any_map
  setup_action refs raw =
      let o = env.outside in
      let op = text_at "op" raw in
      let m = env.message_of (lookup_field "message" raw) in
      let level = text_at "thinkingLevel" raw in
      let provider = text_at "provider" raw in
      let model_id = text_at "modelId" raw in
      let custom_type = text_at "customType" raw in
      let content = env.content_of (lookup_field "content" raw) in
      let name = text_at "name" raw in
      let target = target_of refs (text_at "targetRef" raw) (text_at "targetId" raw) in
      if equal_fold op "append_message"
      then some (
          append_message o
            (record m { role = role_or_user m.role; timestamp = stamped_at env.now m.timestamp }))
      else if equal_fold op "append_thinking_level_change"
      then if level == "" then none else some (append_thinking_level o level)
      else if equal_fold op "append_model_change"
      then if (provider == "") || (model_id == "")
        then none
        else some (append_model_change o provider model_id)
      else if equal_fold op "append_custom_entry"
      then if custom_type == ""
        then none
        else some (append_custom_entry o custom_type (any_map (lookup_field "data" raw)))
      else if equal_fold op "append_custom_message"
      then if custom_type == "" then none else elim content [
        | [] ↦ none
        | b ∷ bs ↦ some (
            append_custom_message o custom_type (b ∷ bs) (bool_or_true (lookup_field "display" raw))
              (any_map (lookup_field "details" raw)))
      ]
      else if equal_fold op "append_session_info"
      then if name == "" then none else some (append_session_name o name)
      else if equal_fold op "append_label"
      then if target == ""
        then none
        else some (append_label o target (any_string env.sprint (lookup_field "label" raw)))
      else none

  -- One round of the loop of applySessionSetupEntries.
  unfoldable pub apply_setup_entry : Refs → Fields → Host Refs
  unfolding setup_action
  apply_setup_entry refs raw = elim (setup_action refs raw) [
    | none ↦ return refs
    | some action ↦ on_session action >>= λ e. return (note_ref (text_at "ref" raw) e refs)
  ]

  unfoldable pub apply_setup_loop : Refs → List Fields → Host Refs
  apply_setup_loop refs [] = return refs
  apply_setup_loop refs (raw ∷ raws) =
      apply_setup_entry refs raw >>= λ refs'. apply_setup_loop refs' raws

  -- applySessionSetupEntries
  unfoldable pub apply_session_setup_entries : List Fields → Host (Unit {0})
  apply_session_setup_entries raws = apply_setup_loop [] raws >>= λ refs. return tt

  abbrev pub keep_level : String → Host (Unit {0})
  keep_level level r = if level == "" then (ok tt, r) else become_level level r

  abbrev pub become_resolved : Result Model → Host (Unit {0})
  become_resolved (err why) r = (err why, r)
  become_resolved (ok m) r = become_model m r

  abbrev pub keep_model : String → String → Host (Unit {0})
  keep_model provider model_id r =
      if (provider == "") && (model_id == "")
      then (ok tt, r)
      else become_resolved (resolve_model r.model_registry provider model_id) r

  -- syncRuntimeFromSessionState
  unfoldable pub sync_runtime : Host (Unit {0})
  sync_runtime r =
      let c = build_context env.now r.session.manager r.session.leaf_id in
      (keep_level (trim_space c.thinking_level) >>= λ _.
      keep_model (trim_space c.model_provider) (trim_space c.model_id))
        r

  -- emitSessionStartEvent
  unfoldable pub emit_session_start : Host (Unit {0})
  emit_session_start r = elim (env.start_fails r) [ some why ↦ (err why, r) | none ↦ (ok tt, r) ]

  unfoldable pub set_up : List Fields → Host (Unit {0})
  unfolding sync_runtime
  set_up [] = return tt
  set_up (raw ∷ raws) = apply_session_setup_entries (raw ∷ raws) >>= λ _. sync_runtime

  -- The session of startNewSession once no extension cancels it.
  unfoldable pub begin_new_session : String → List Fields → Host Bool
  unfolding set_up emit_session_start
  begin_new_session parent raws r =
      (on_session (create_new env.outside r.session.header.cwd (trim_space parent)) >>= λ _.
      on_session (append_model_change env.outside r.model.provider r.model.id) >>= λ _.
      on_session (append_thinking_level env.outside r.thinking_level) >>= λ _.
      set_up raws >>= λ _. emit_session_start >>= λ _. return false)
        r

  -- startNewSession; true says that an extension has cancelled it.
  unfoldable pub start_new_session : String → Bool → List Fields → Host Bool
  unfolding begin_new_session
  start_new_session parent skip_before_hooks raws r =
      if not skip_before_hooks && env.cancels_switch r "new" ""
      then (ok true, r)
      else begin_new_session parent raws r

  unfoldable pub resume_session : String → Host Bool
  resume_session path = on_session (open_session env.outside path) >>= λ _.
      sync_runtime >>= λ _. emit_session_start >>= λ _. return false

  -- switchSession
  unfoldable pub switch_session : String → Bool → Host Bool
  unfolding resume_session
  switch_session path skip_before_hooks r =
      if not skip_before_hooks && env.cancels_switch r "resume" path
      then (ok true, r)
      else resume_session path r

  unfoldable pub after_fork : Bool → Host Bool
  after_fork true = return true
  after_fork false = sync_runtime >>= λ _. emit_session_start >>= λ _. return false

  -- forkSession with what follows the copy of the branch.
  unfoldable pub fork_runtime : String → Bool → Host Bool
  unfolding after_fork
  fork_runtime entry_id skip_before_hooks r =
      (on_session (
            fork_session env.outside
              (record {
                provider = r.model.provider;
                model_id = r.model.id;
                thinking_level = r.thinking_level;
              })
              (not skip_before_hooks && env.cancels_fork r entry_id) entry_id)
          >>= after_fork)
        r
