-- ===== src/Agent/Runtime/Entries/Switches.antt =====
-- internal/agent/runtime.go: the index of the session, through the setup entries and the change of
-- the session.
use pi_go_coding_agent.Base.{
  String, Bool, true, false, List, [], ◌∷◌, Option, none, some, not, ◌==◌, ◌&&◌, ◌||◌,
  if◌then◌else◌,
}
use pi_go_coding_agent.Base.Text.{trim_space, equal_fold}
use pi_go_coding_agent.Types.{Fields, ContentBlock}
use pi_go_coding_agent.Session.Data.{Entry}
use pi_go_coding_agent.Session.World.{Result, ok, err, Action}
use pi_go_coding_agent.Session.Append.{
  append_message, append_model_change, append_thinking_level, append_label, append_session_name,
  append_custom_entry, append_custom_message,
}
use pi_go_coding_agent.Session.Placed.{
  Keeps, append_new-Keeps, create_new-Keeps, open_session-Keeps,
}
use pi_go_coding_agent.Session.Context.{build_context}
use pi_go_coding_agent.Session.Open.{create_new}
use pi_go_coding_agent.Config.Models.{Model}
use pi_go_coding_agent.Config.Models.Search.{resolve_model}
use pi_go_coding_agent.Agent.Fork.{Setup, fork_session}
use pi_go_coding_agent.Agent.Fork.Indexed.{fork_session-Keeps}
use pi_go_coding_agent.Agent.Runtime.{Environment, ◌>>=◌, return, on_session}
use pi_go_coding_agent.Agent.Runtime.Models.{become_level}
use pi_go_coding_agent.Agent.Runtime.Setup.{
  Refs, text_at, target_of, setup_action, apply_setup_entry, apply_setup_loop,
  apply_session_setup_entries, keep_level, keep_model, become_resolved, sync_runtime,
  emit_session_start, set_up, begin_new_session, start_new_session, resume_session, switch_session,
  fork_runtime, after_fork, note_ref,
}
use pi_go_coding_agent.Agent.Runtime.Entries.{
  Holds, Holds-bind, return-Holds, on_session-Holds, if_at-Holds,
}

-- Where there is an action, it keeps the index right.
data KeepsIfAny : Option (Action Entry) → Type 0 where
  skips : KeepsIfAny none
  acts : (f : Action Entry) → Keeps f → KeepsIfAny (some f)

choose-Keeps :
    (b : Bool) (f g : Option (Action Entry))
    → KeepsIfAny f
    → KeepsIfAny g
    → KeepsIfAny (if b then f else g)
choose-Keeps true f g kf kg = kf
choose-Keeps false f g kf kg = kg

module _ (env : Environment) where
  with_content-Keeps :
      (t : String) (d : Bool) (fs : Option Fields) (bs : List ContentBlock)
      → KeepsIfAny (elim bs [
        | [] ↦ none
        | b ∷ bs ↦ some (append_custom_message env.outside t (b ∷ bs) d fs)
      ])
  unfolding append_custom_message
  with_content-Keeps t d fs [] = skips
  with_content-Keeps t d fs (b ∷ bs) = acts _ (append_new-Keeps env.outside _)

  setup_action-Keeps : (refs : Refs) (raw : Fields) → KeepsIfAny (setup_action env refs raw)
  unfolding setup_action append_message append_model_change append_thinking_level append_label
      append_session_name append_custom_entry
  setup_action-Keeps refs raw =
      let k = append_new-Keeps env.outside in
      let at = λ (key : String). text_at env key raw in
      let is = λ (kind : String). equal_fold (at "op") kind in
      let lacks = λ (key : String). at key == "" in
      let target = target_of refs (at "targetRef") (at "targetId") in
      choose-Keeps (is "append_message") _ _ (acts _ (k _)) (
        choose-Keeps (is "append_thinking_level_change") _ _
          (choose-Keeps (lacks "thinkingLevel") _ _ skips (acts _ (k _)))
          (choose-Keeps (is "append_model_change") _ _
            (choose-Keeps (lacks "provider" || lacks "modelId") _ _ skips (acts _ (k _)))
            (choose-Keeps (is "append_custom_entry") _ _
              (choose-Keeps (lacks "customType") _ _ skips (acts _ (k _)))
              (choose-Keeps (is "append_custom_message") _ _
                (choose-Keeps (lacks "customType") _ _ skips (with_content-Keeps _ _ _ _))
                (choose-Keeps (is "append_session_info") _ _
                  (choose-Keeps (lacks "name") _ _ skips (acts _ (k _)))
                  (choose-Keeps (is "append_label") _ _
                    (choose-Keeps (target == "") _ _ skips (acts _ (k _))) skips))))))

  setup_entry-Holds :
      (refs : Refs) (ref : String) (f : Option (Action Entry))
      → KeepsIfAny f
      → Holds (elim f [
        | none ↦ return refs
        | some action ↦ on_session action >>= λ e. return (note_ref ref e refs)
      ])
  setup_entry-Holds refs ref _ skips = return-Holds refs
  setup_entry-Holds refs ref _ (acts f k) =
      Holds-bind _ _ (on_session-Holds f k) (λ e. return-Holds _)

  setup_loop-Holds : (refs : Refs) (raws : List Fields) → Holds (apply_setup_loop env refs raws)
  unfolding apply_setup_loop apply_setup_entry
  setup_loop-Holds refs [] = return-Holds refs
  setup_loop-Holds refs (raw ∷ raws) =
      Holds-bind _ _ (setup_entry-Holds refs _ _ (setup_action-Keeps refs raw))
        (λ refs'. setup_loop-Holds refs' raws)

  level-Holds : (level : String) → Holds (keep_level env level)
  level-Holds level =
      if_at-Holds (λ r. level == "") _ (become_level level) (return-Holds tt)
        (record { holds = λ r v. v })

  resolved-Holds : (p : Result Model) → Holds (become_resolved env p)
  resolved-Holds (err why) = record { holds = λ r v. v }
  resolved-Holds (ok m) = record { holds = λ r v. v }

  model-Holds : (provider id : String) → Holds (keep_model env provider id)
  model-Holds provider id =
      if_at-Holds (λ r. (provider == "") && (id == "")) (return tt) _ (return-Holds tt)
        (record {
          holds = λ r v. (resolved-Holds (resolve_model r.model_registry provider id)).holds r v;
        })

  pub sync_runtime-Holds : Holds (sync_runtime env)
  unfolding sync_runtime
  sync_runtime-Holds = record {
    holds = λ r v.
        let c = build_context env.now r.session.manager r.session.leaf_id in
        (Holds-bind (keep_level env (trim_space c.thinking_level))
            (λ u. keep_model env (trim_space c.model_provider) (trim_space c.model_id))
            (level-Holds _) (λ u. model-Holds _ _)).holds
          r v;
  }

  start_cases-Holds :
      (p : Option String)
      → Holds {A = Unit {0}} (λ r. elim p [ some why ↦ (err why, r) | none ↦ (ok tt, r) ])
  start_cases-Holds none = return-Holds tt
  start_cases-Holds (some why) = record { holds = λ r v. v }

  pub emit_session_start-Holds : Holds (emit_session_start env)
  unfolding emit_session_start
  emit_session_start-Holds = record {
    holds = λ r v. (start_cases-Holds (env.start_fails r)).holds r v;
  }

  set_up-Holds : (raws : List Fields) → Holds (set_up env raws)
  unfolding set_up apply_session_setup_entries
  set_up-Holds [] = return-Holds tt
  set_up-Holds (raw ∷ raws) =
      Holds-bind _ _ (Holds-bind _ _ (setup_loop-Holds [] (raw ∷ raws)) (λ refs. return-Holds tt))
        (λ u. sync_runtime-Holds)

  pub start_new_session-Holds :
      (parent : String) (skip : Bool) (raws : List Fields)
      → Holds (start_new_session env parent skip raws)
  unfolding start_new_session begin_new_session append_model_change append_thinking_level
  start_new_session-Holds parent skip raws =
      if_at-Holds (λ r. not skip && env.cancels_switch r "new" "") (return true)
        (begin_new_session env parent raws) (return-Holds true)
        (record {
          holds = λ r v.
              (Holds-bind
                  (on_session (create_new env.outside r.session.header.cwd (trim_space parent))) _
                  (on_session-Holds _ (create_new-Keeps env.outside _ _))
                  (λ u. Holds-bind _ _ (on_session-Holds _ (append_new-Keeps env.outside _)) (λ e.
                    Holds-bind _ _ (on_session-Holds _ (append_new-Keeps env.outside _)) (λ e'.
                      Holds-bind _ _ (set_up-Holds raws) (λ u'.
                        Holds-bind _ _ emit_session_start-Holds
                          (λ u''. return-Holds false)))))).holds
                r v;
        })

  pub switch_session-Holds : (path : String) (skip : Bool) → Holds (switch_session env path skip)
  unfolding switch_session resume_session
  switch_session-Holds path skip =
      if_at-Holds (λ r. not skip && env.cancels_switch r "resume" path) (return true)
        (resume_session env path) (return-Holds true)
        (Holds-bind _ _ (on_session-Holds _ (open_session-Keeps env.outside path)) (λ u.
          Holds-bind _ _ sync_runtime-Holds
            (λ u'. Holds-bind _ _ emit_session_start-Holds (λ u''. return-Holds false))))

  after_fork-Holds : (cancelled : Bool) → Holds (after_fork env cancelled)
  unfolding after_fork
  after_fork-Holds true = return-Holds true
  after_fork-Holds false =
      Holds-bind _ _ sync_runtime-Holds
        (λ u. Holds-bind _ _ emit_session_start-Holds (λ u'. return-Holds false))

  pub fork_runtime-Holds : (id : String) (skip : Bool) → Holds (fork_runtime env id skip)
  unfolding fork_runtime
  fork_runtime-Holds id skip = record {
    holds = λ r v.
        let setup : Setup = record {
          provider = r.model.provider;
          model_id = r.model.id;
          thinking_level = r.thinking_level;
        } in
        let cancelled = not skip && env.cancels_fork r id in
        (Holds-bind (on_session (fork_session env.outside setup cancelled id)) (after_fork env)
            (on_session-Holds _ (fork_session-Keeps env.outside setup cancelled id))
            after_fork-Holds).holds
          r v;
  }
