-- ===== src/Agent/Runtime/Actions.antt =====
-- internal/agent/runtime.go: applySidecarActions, the actions that an extension asks for.
use pi_go_coding_agent.Base.{
  String, Bool, true, false, List, [], ◌∷◌, ◌++◌, ◌==◌, ◌||◌, if◌then◌else◌,
}
use pi_go_coding_agent.Base.Text.{trim_space, equal_fold}
use pi_go_coding_agent.Types.{
  Role, user, assistant, tool, other, Message, empty_message, ContentBlock, text_block,
}
use pi_go_coding_agent.Session.World.{ok}
use pi_go_coding_agent.Session.Append.{
  append_message, append_custom_entry, append_custom_message, append_session_name, append_label,
}
use pi_go_coding_agent.Agent.Queues.{Queues}
use pi_go_coding_agent.Agent.Compact.Run.{compact_context}
use pi_go_coding_agent.Agent.Runtime.{
  HostAction, Environment, Host, ◌>>=◌, return, on_session, abort,
}
use pi_go_coding_agent.Agent.Runtime.Models.{set_model, set_thinking_level}
use pi_go_coding_agent.Agent.Runtime.Active.{set_active_tools_by_name}
use pi_go_coding_agent.Agent.Runtime.Setup.{start_new_session, switch_session, fork_runtime}
use pi_go_coding_agent.Agent.Runtime.Navigate.{navigate_tree}

pub record Flags : Type 0 where
  pub trigger_run : Bool
  pub emitted_message : Bool

abbrev pub no_flags : Flags
no_flags = record { trigger_run = false; emitted_message = false }

-- normalizeActionDelivery
unfoldable pub normalize_action_delivery : String → String
normalize_action_delivery value =
    let v = trim_space value in
    if equal_fold v "steer"
    then "steer"
    else if equal_fold v "followup" || equal_fold v "follow_up" || equal_fold v "follow-up"
    then "followup"
    else if equal_fold v "nextturn" || equal_fold v "next_turn" || equal_fold v "next-turn"
    then "followup"
    else ""

-- A message goes to the steering queue unless it is to follow up.
unfoldable pub deliver : String → Message → Queues → Queues
unfolding normalize_action_delivery
deliver how_to m q =
    let how = normalize_action_delivery how_to in
    if (how == "") || (how == "steer")
    then record q { steering_queue = q.steering_queue ++ m ∷ [] }
    else record q { follow_up_queue = q.follow_up_queue ++ m ∷ [] }

-- The content of an action, or its text where there is none.
abbrev pub content_or : List ContentBlock → String → List ContentBlock
content_or (b ∷ bs) text = b ∷ bs
content_or [] text = if text == "" then [] else text_block text ∷ []

abbrev pub role_of : String → Role
role_of s =
    if s == ""
    then assistant
    else if s == "user"
    then user
    else if s == "assistant"
    then assistant
    else if s == "toolResult"
    then tool
    else other s

unfoldable pub queue_message : Bool → String → Message → Flags → Host Flags
unfolding deliver
queue_message allow how_to m flags r = (
  ok (record flags { trigger_run = flags.trigger_run || allow }),
  record r { queues = deliver how_to m r.queues },
)

-- Where the action lacks its argument, it is skipped.
abbrev pub unless_empty : String → (String → Host (Unit {0})) → Host (Unit {0})
unless_empty text f = let arg = trim_space text in if arg == "" then return tt else f arg

abbrev pub done : {A : Type 0} → Host A → Host (Unit {0})
done f = f >>= λ a. return tt

module _ (env : Environment) where
  -- The error of a compaction goes to the extensions only.
  unfoldable pub compact_quietly : String → Host (Unit {0})
  compact_quietly instructions r =
      let (a, s) = compact_context (env.helpers r) env.outside instructions r.session in
      (ok tt, record r { session = s })

  -- The actions that leave the flags, where the model's provider is the argument.
  unfoldable pub change_of : String → HostAction → Host (Unit {0})
  unfolding compact_quietly
  change_of current a =
      let o = env.outside in
      let kind = trim_space a.type in
      if equal_fold kind "set_model"
      then unless_empty a.model (λ id.
        let provider = trim_space a.provider in
        set_model env (if provider == "" then current else provider) id)
      else if equal_fold kind "set_thinking_level"
      then unless_empty a.thinking_level (set_thinking_level env)
      else if equal_fold kind "append_entry"
      then unless_empty a.custom_type (λ t. done (on_session (append_custom_entry o t a.fields)))
      else if equal_fold kind "set_session_name"
      then unless_empty a.name (λ name. done (on_session (append_session_name o name)))
      else if equal_fold kind "set_label"
      then unless_empty a.target_id (λ id. done (on_session (append_label o id a.caption)))
      else if equal_fold kind "set_active_tools"
      then set_active_tools_by_name a.tool_names
      else if equal_fold kind "new_session"
      then done
          (start_new_session env (trim_space a.parent_session) a.skip_before_hooks a.setup_entries)
      else if equal_fold kind "switch_session"
      then unless_empty a.session_path (λ path. done (switch_session env path a.skip_before_hooks))
      else if equal_fold kind "fork"
      then unless_empty a.entry_id (λ id. done (fork_runtime env id a.skip_before_hooks))
      else if equal_fold kind "navigate_tree"
      then unless_empty (if trim_space a.target_id == "" then a.entry_id else a.target_id)
          (λ id. navigate_tree env id a)
      else if equal_fold kind "compact"
      then compact_quietly (trim_space a.custom_instructions)
      else if equal_fold kind "abort"
      then (λ s. (ok tt, abort s))
      else return tt

  unfoldable pub apply_change : HostAction → Host (Unit {0})
  unfolding change_of
  apply_change a r = change_of r.model.provider a r

  -- A message with a content, to the queues or to the session.
  unfoldable pub send_as : Role → Bool → String → Message → Flags → Host Flags
  unfolding queue_message
  send_as user allow how_to m flags = queue_message allow how_to m flags
  send_as role allow how_to m flags = on_session (append_message env.outside m) >>= λ e.
      return (record flags { emitted_message = true })

  unfoldable pub send_content : List ContentBlock → Bool → HostAction → Flags → Host Flags
  unfolding send_as
  send_content [] allow a flags = return flags
  send_content (b ∷ bs) allow a flags =
      let custom_type = trim_space a.custom_type in
      let role = role_of (trim_space a.role) in
      if custom_type == ""
      then send_as role allow a.deliver_as
          (record (empty_message role) { timestamp = env.now; content = b ∷ bs }) flags
      else on_session (append_custom_message env.outside custom_type (b ∷ bs) a.display a.fields)
        >>= λ e. return (record flags { emitted_message = true })

  unfoldable pub send_message : Bool → HostAction → Flags → Host Flags
  unfolding send_content
  send_message allow a flags = send_content (content_or a.content (trim_space a.body)) allow a flags

  unfoldable pub send_user_content : List ContentBlock → Bool → String → Flags → Host Flags
  unfolding queue_message
  send_user_content [] allow how_to flags = return flags
  send_user_content (b ∷ bs) allow how_to flags =
      queue_message allow how_to
        (record (empty_message user) { timestamp = env.now; content = b ∷ bs }) flags

  unfoldable pub send_user_message : Bool → HostAction → Flags → Host Flags
  unfolding send_user_content
  send_user_message allow a flags =
      send_user_content (content_or a.content (trim_space a.body)) allow a.deliver_as flags

  unfoldable pub apply_action : Bool → HostAction → Flags → Host Flags
  unfolding apply_change compact_quietly send_message send_user_message
  apply_action allow a flags =
      let kind = trim_space a.type in
      if equal_fold kind "send_user_message"
      then send_user_message allow a flags
      else if equal_fold kind "send_message"
      then send_message allow a flags
      else apply_change a >>= λ u. return flags

  unfoldable pub apply_actions_loop : Bool → List HostAction → Flags → Host Flags
  unfolding apply_action
  apply_actions_loop allow [] flags = return flags
  apply_actions_loop allow (a ∷ more) flags =
      apply_action allow a flags >>= λ flags'. apply_actions_loop allow more flags'

  -- applySidecarActions
  unfoldable pub apply_sidecar_actions : Bool → List HostAction → Host Flags
  unfolding apply_actions_loop
  apply_sidecar_actions allow actions = apply_actions_loop allow actions no_flags
