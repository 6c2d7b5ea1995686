-- ===== src/Agent/Runtime/Entries/Requests.antt =====
-- internal/agent/runtime.go: the index of the session, through the actions of an extension.
use pi_go_coding_agent.Base.{
  String, Bool, true, List, [], ◌∷◌, Option, none, some, ◌==◌, if◌then◌else◌,
}
use pi_go_coding_agent.Base.Text.{trim_space, equal_fold}
use pi_go_coding_agent.Types.{Role, Message, Fields, ContentBlock, user}
use pi_go_coding_agent.Session.World.{Result, ok, err, Action}
use pi_go_coding_agent.Session.Append.{
  append_message, append_branch_summary, append_label, append_session_name, append_custom_entry,
  append_custom_message, set_leaf,
}
use pi_go_coding_agent.Session.Placed.{IsPlaced, Keeps, append_new-Keeps, set_leaf-Keeps}
use pi_go_coding_agent.Agent.Fork.Indexed.{compact_context-Keeps}
use pi_go_coding_agent.Agent.Runtime.{
  Runtime, HostAction, Environment, Host, ◌>>=◌, return, on_session, abort,
}
use pi_go_coding_agent.Agent.Runtime.Active.{
  set_active_tools_by_name, choose_tools, names_of, Names, become_active,
}
use pi_go_coding_agent.Tools.Registry.{definitions_of}
use pi_go_coding_agent.Session.Data.{Entry}
use pi_go_coding_agent.Agent.Runtime.Navigate.{Summary, append_summary, move_leaf, navigate_tree}
use pi_go_coding_agent.Agent.Runtime.Actions.{
  Flags, no_flags, queue_message, unless_empty, done, compact_quietly, change_of, apply_change,
  send_as, send_content, send_user_content, send_message, send_user_message, apply_action,
  apply_actions_loop, apply_sidecar_actions, role_of,
}
use pi_go_coding_agent.Agent.Runtime.Entries.{
  Holds, Holds-bind, return-Holds, on_session-Holds, if_at-Holds, if-Holds, set_model-Holds,
  set_thinking_level-Holds,
}
use pi_go_coding_agent.Agent.Runtime.Entries.Switches.{
  start_new_session-Holds, switch_session-Holds, fork_runtime-Holds,
}

module _ (env : Environment) where
  append_summary-Holds : (old : String) (s : Summary) → Holds (append_summary env old s)
  unfolding append_summary append_branch_summary
  append_summary-Holds old (text, details) =
      if_at-Holds (λ r. text == "") (return tt) _ (return-Holds tt)
        (Holds-bind _ _ (on_session-Holds _ (append_new-Keeps env.outside _))
          (λ e. return-Holds tt))

  move_leaf-Holds : (target : String) (s : Option Summary) → Holds (move_leaf env target s)
  unfolding move_leaf
  move_leaf-Holds target none = return-Holds tt
  move_leaf-Holds target (some s) = record {
    holds = λ r v.
        (Holds-bind (on_session (set_leaf target)) (λ u. append_summary env r.session.leaf_id s)
            (on_session-Holds _ (set_leaf-Keeps env.outside target))
            (λ u. append_summary-Holds _ s)).holds
          r v;
  }

  navigate_tree-Holds : (target : String) (a : HostAction) → Holds (navigate_tree env target a)
  unfolding navigate_tree
  navigate_tree-Holds target a =
      if_at-Holds (λ r. r.session.leaf_id == target) (return tt) _ (return-Holds tt)
        (record { holds = λ r v. (move_leaf-Holds target _).holds r v })

  done-Holds : {A : Type 0} (f : Host A) → Holds f → Holds (done f)
  done-Holds f h = Holds-bind f _ h (λ a. return-Holds tt)

  unless_empty-Holds :
      (text : String) (f : String → Host (Unit {0}))
      → ((arg : String) → Holds (f arg))
      → Holds (unless_empty text f)
  unless_empty-Holds text f h =
      if-Holds (trim_space text == "") (return tt) (f (trim_space text)) (return-Holds tt) (h _)

  become_active-Holds : (p : Result Names) → Holds (become_active p)
  become_active-Holds (err why) = record { holds = λ r v. v }
  become_active-Holds (ok next) = record { holds = λ r v. v }

  set_active_tools-Holds : (wanted : List String) → Holds (set_active_tools_by_name wanted)
  unfolding set_active_tools_by_name
  set_active_tools-Holds wanted = record {
    holds = λ r v.
        (become_active-Holds (choose_tools (names_of (definitions_of r.tools)) wanted [])).holds r
          v;
  }

  compact_quietly-Holds : (instructions : String) → Holds (compact_quietly env instructions)
  unfolding compact_quietly
  compact_quietly-Holds instructions = record {
    holds =
        λ r v. (compact_context-Keeps env.outside (env.helpers r) instructions).keeps r.session v;
  }

  appends-Holds : (f : Action Entry) → Keeps f → Holds (done (on_session f))
  appends-Holds f k = done-Holds (on_session f) (on_session-Holds f k)

  custom_entry-Keeps :
      (t : String) (fs : Option Fields) → Keeps (append_custom_entry env.outside t fs)
  unfolding append_custom_entry
  custom_entry-Keeps t fs = append_new-Keeps env.outside _

  session_name-Keeps : (name : String) → Keeps (append_session_name env.outside name)
  unfolding append_session_name
  session_name-Keeps name = append_new-Keeps env.outside _

  label-Keeps : (id caption : String) → Keeps (append_label env.outside id caption)
  unfolding append_label
  label-Keeps id caption = append_new-Keeps env.outside _

  abort-Holds : Holds {A = Unit {0}} (λ s. (ok tt, abort s))
  unfolding abort
  abort-Holds = record { holds = λ r v. v }

  change_of-Holds : (current : String) (a : HostAction) → Holds (change_of env current a)
  unfolding change_of
  change_of-Holds current a =
      let is = λ (kind : String). equal_fold (trim_space a.type) kind in
      if-Holds (is "set_model") _ _
        (unless_empty-Holds a.model _ (
          set_model-Holds env
            (if trim_space a.provider == "" then current else trim_space a.provider)))
        (if-Holds (is "set_thinking_level") _ _
          (unless_empty-Holds a.thinking_level _ (set_thinking_level-Holds env))
          (if-Holds (is "append_entry") _ _
            (unless_empty-Holds a.custom_type _
              (λ t. appends-Holds _ (custom_entry-Keeps t a.fields)))
            (if-Holds (is "set_session_name") _ _
              (unless_empty-Holds a.name _ (λ name. appends-Holds _ (session_name-Keeps name)))
              (if-Holds (is "set_label") _ _
                (unless_empty-Holds a.target_id _
                  (λ id. appends-Holds _ (label-Keeps id a.caption)))
                (if-Holds (is "set_active_tools") _ _ (set_active_tools-Holds a.tool_names) (
                  if-Holds (is "new_session") _ _
                    (done-Holds _ (
                      start_new_session-Holds env (trim_space a.parent_session) a.skip_before_hooks
                        a.setup_entries))
                    (if-Holds (is "switch_session") _ _
                      (unless_empty-Holds a.session_path _
                        (λ path. done-Holds _ (switch_session-Holds env path a.skip_before_hooks)))
                      (if-Holds (is "fork") _ _
                        (unless_empty-Holds a.entry_id _
                          (λ id. done-Holds _ (fork_runtime-Holds env id a.skip_before_hooks)))
                        (if-Holds (is "navigate_tree") _ _
                          (unless_empty-Holds
                            (if trim_space a.target_id == "" then a.entry_id else a.target_id) _
                            (λ id. navigate_tree-Holds id a))
                          (if-Holds (is "compact") _ _
                            (compact_quietly-Holds (trim_space a.custom_instructions))
                            (if-Holds (is "abort") _ _ abort-Holds (return-Holds tt))))))))))))

  queue_message-Holds :
      (allow : Bool) (how_to : String) (m : Message) (flags : Flags)
      → Holds (queue_message allow how_to m flags)
  unfolding queue_message
  queue_message-Holds allow how_to m flags = record { holds = λ r v. v }

  custom_message-Keeps :
      (t : String) (bs : List ContentBlock) (d : Bool) (fs : Option Fields)
      → Keeps (append_custom_message env.outside t bs d fs)
  unfolding append_custom_message
  custom_message-Keeps t bs d fs = append_new-Keeps env.outside _

  message-Keeps : (m : Message) → Keeps (append_message env.outside m)
  unfolding append_message
  message-Keeps m = append_new-Keeps env.outside _

  emitted-Holds :
      (f : Action Entry) (flags : Flags) → Keeps f → Holds (on_session f >>= λ e. return flags)
  emitted-Holds f flags k =
      Holds-bind (on_session f) (λ e. return flags) (on_session-Holds f k) (λ e. return-Holds flags)

  send_as-Holds :
      (role : Role) (allow : Bool) (how_to : String) (m : Message) (flags : Flags)
      → Holds (send_as env role allow how_to m flags)
  unfolding send_as
  send_as-Holds user allow how_to m flags = queue_message-Holds allow how_to m flags
  send_as-Holds role allow how_to m flags =
      emitted-Holds (append_message env.outside m) (record flags { emitted_message = true })
        (message-Keeps m)

  send_content-Holds :
      (bs : List ContentBlock) (allow : Bool) (a : HostAction) (flags : Flags)
      → Holds (send_content env bs allow a flags)
  unfolding send_content
  send_content-Holds [] allow a flags = return-Holds flags
  send_content-Holds (b ∷ bs) allow a flags =
      if-Holds (trim_space a.custom_type == "") _ _
        (send_as-Holds (role_of (trim_space a.role)) allow a.deliver_as _ flags)
        (emitted-Holds _ _
          (custom_message-Keeps (trim_space a.custom_type) (b ∷ bs) a.display a.fields))

  send_user_content-Holds :
      (bs : List ContentBlock) (allow : Bool) (how_to : String) (flags : Flags)
      → Holds (send_user_content env bs allow how_to flags)
  unfolding send_user_content
  send_user_content-Holds [] allow how_to flags = return-Holds flags
  send_user_content-Holds (b ∷ bs) allow how_to flags = queue_message-Holds allow how_to _ flags

  apply_action-Holds :
      (allow : Bool) (a : HostAction) (flags : Flags) → Holds (apply_action env allow a flags)
  unfolding apply_action apply_change send_message send_user_message
  apply_action-Holds allow a flags =
      if-Holds (equal_fold (trim_space a.type) "send_user_message") _ _
        (send_user_content-Holds _ allow a.deliver_as flags)
        (if-Holds (equal_fold (trim_space a.type) "send_message") _ _
          (send_content-Holds _ allow a flags)
          (record {
            holds = λ r v.
                (Holds-bind (change_of env r.model.provider a) (λ u. return flags)
                    (change_of-Holds r.model.provider a) (λ u. return-Holds flags)).holds
                  r v;
          }))

  actions_loop-Holds :
      (allow : Bool) (actions : List HostAction) (flags : Flags)
      → Holds (apply_actions_loop env allow actions flags)
  unfolding apply_actions_loop
  actions_loop-Holds allow [] flags = return-Holds flags
  actions_loop-Holds allow (a ∷ more) flags =
      Holds-bind (apply_action env allow a flags) (apply_actions_loop env allow more)
        (apply_action-Holds allow a flags) (actions_loop-Holds allow more)

  -- Whatever actions an extension asks for, in any order and whether or not they succeed, new,
  -- opened and forked sessions, moves in the tree, compactions and appends: each identifier of
  -- the session's index stands for an entry that has it, if it did before.
  pub apply_sidecar_actions-IsPlaced :
      (allow : Bool) (actions : List HostAction) (r : Runtime)
      → IsPlaced r.session.manager
      → IsPlaced (apply_sidecar_actions env allow actions r).1.session.manager
  unfolding apply_sidecar_actions
  apply_sidecar_actions-IsPlaced allow actions r v =
      (actions_loop-Holds allow actions no_flags).holds r v
