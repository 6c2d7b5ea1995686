-- ===== src/Agent/Runtime/Prompt.antt =====
-- internal/agent/runtime.go: Prompt, PromptMessage and Continue, with the run that follows, and the
-- commands of an extension.
use Prim.Native.Char.{code}
use pi_go_coding_agent.Base.{
  String, true, false, Option, none, some, not, last?, ℕ_discrete, ite, ◌==◌, ◌&&◌, if◌then◌else◌,
}
use pi_go_coding_agent.Base.Text.{trim_space, equal_fold, ◌^^◌}
use pi_go_coding_agent.Base.Strings.{cut_at, text_or_empty}
use pi_go_coding_agent.Types.{user, assistant, tool, other, Message, empty_message, text_message}
use pi_go_coding_agent.Session.World.{Session, Result, ok, err}
use pi_go_coding_agent.Session.Append.{append_message}
use pi_go_coding_agent.Session.Context.{build_context}
use pi_go_coding_agent.Agent.Queues.{check_message, has_queued_messages}
use pi_go_coding_agent.Agent.Run.{Stop, aborted, refused, provider_failed, exceeded}
use pi_go_coding_agent.Agent.Run.Rounds.{Round, again, returned, stopped_at, run_loop}
use pi_go_coding_agent.Agent.Run.Backed.{session_transcript}
use pi_go_coding_agent.Agent.Runtime.{Runtime, Environment, Host, ◌>>=◌, return, on_session}
use pi_go_coding_agent.Agent.Runtime.Actions.{Flags, apply_sidecar_actions}

abbrev pub stop_text : Stop → String
stop_text aborted = "run aborted"
stop_text (refused why) = why
stop_text (provider_failed why) = why
stop_text exceeded = "agent exceeded maximum tool-call rounds"

-- The runtime at the end of a run. The bound of the rounds leaves none to follow.
abbrev pub after_run : Runtime → Round Session → Result Message × Runtime
after_run r (returned m s) =
    (ok m, record r { session = s.transcript; queues = s.queues; is_running = false })
after_run r (stopped_at m why s) = (
  err (stop_text why),
  record r { session = s.transcript; queues = s.queues; is_running = false },
)
after_run r (again ms n m s) = (
  err (stop_text exceeded),
  record r { session = s.transcript; queues = s.queues; is_running = false },
)

-- The text of a command, without the slash.
unfoldable pub command_line : String → Option String
unfolding ℕ_discrete
command_line String.[] = none
command_line (String.◌∷◌ c s) =
    if ite (ℕ_discrete (code c) 47) true false
    then if trim_space s == "" then none else some (trim_space s)
    else none

-- What an extension makes of an input: another text, or an answer instead of a run.
pub data Input : Type 0 where
  prompts : String → Input
  answers : Message → Input

module _ (env : Environment) where
  -- runLoop on the runtime's session and queues
  unfoldable pub run_agent : Host Message
  unfolding session_transcript
  run_agent r = after_run r (
      run_loop (env.run_outside r)
        (session_transcript env.outside env.now env.is_over_threshold (λ n. env.helpers r))
        (env.before_agent_start r) (empty_message assistant)
        (record { transcript = r.session; queues = r.queues; point = 0 }))

  -- applyInputHooks
  unfoldable pub apply_input_hooks : String → Host Input
  apply_input_hooks text r = elim (env.input r text) [
    | none ↦ (ok (prompts text), r)
    | some a ↦
        let action = trim_space a.action in
        let reply = trim_space a.assistant_text in
        let m = text_message env.now assistant reply in
        if equal_fold action "transform"
        then (ok (prompts (if trim_space a.body == "" then text else a.body)), r)
        else if equal_fold action "handled"
        then if reply == ""
          then (ok (answers (record (empty_message assistant) { timestamp = env.now })), r)
          else (on_session (append_message env.outside m) >>= λ e. return (answers m)) r
        else (ok (prompts text), r)
  ]

  -- The answer of the assistant to a command, and the run that its actions ask for.
  unfoldable pub finish_command : String → String → Flags → Host (Option Message)
  unfolding run_agent
  finish_command name output flags =
      let given = trim_space output in
      let shown =
        if (given == "") && not flags.trigger_run && not flags.emitted_message
        then "Extension command /" ^^ name ^^ " executed."
        else given in
      let m =
        if shown == ""
        then record (empty_message assistant) { timestamp = env.now }
        else text_message env.now assistant shown in
      (if shown == ""
        then return tt
        else (on_session (append_message env.outside m) >>= λ e. return tt))
      >>= λ u. if flags.trigger_run then (run_agent >>= λ a. return (some a)) else return (some m)

  unfoldable pub run_command : String → String → Host (Option Message)
  unfolding finish_command
  run_command name args r = elim (env.command r name args) [
    | err why ↦ (err why, r)
    | ok a ↦
        if a.handled
        then (apply_sidecar_actions env true a.actions >>= finish_command name a.output) r
        else (ok none, r)
  ]

  -- tryExecuteSidecarCommand; none where the text is no command of an extension.
  unfoldable pub try_execute_sidecar_command : String → Host (Option Message)
  unfolding run_command command_line
  try_execute_sidecar_command text r = elim (command_line text) [
    | none ↦ (ok none, r)
    | some line ↦
        let (name, rest) = cut_at 32 line in
        let args = text_or_empty rest in
        if env.has_sidecar && not (trim_space name == "")
        then run_command (trim_space name) (trim_space args) r
        else (ok none, r)
  ]

  unfoldable pub append_and_run : Message → Host Message
  unfolding run_agent
  append_and_run m = on_session (append_message env.outside m) >>= λ e. run_agent

  unfoldable pub prompt_input : Input → Host Message
  unfolding append_and_run
  prompt_input (answers m) = return m
  prompt_input (prompts text) = append_and_run (text_message env.now user text)

  unfoldable pub prompt_unless : String → Option Message → Host Message
  unfolding prompt_input apply_input_hooks
  prompt_unless text (some m) = return m
  prompt_unless text none = apply_input_hooks text >>= prompt_input

  -- Prompt
  unfoldable pub prompt : String → Host Message
  unfolding prompt_unless try_execute_sidecar_command
  prompt input r =
      let text = trim_space input in
      if text == ""
      then (err "prompt text is empty", r)
      else (try_execute_sidecar_command text >>= prompt_unless text) r

  -- PromptMessage
  unfoldable pub prompt_message : Message → Host Message
  prompt_message m r = elim (check_message "prompt" env.now m) [
    | err why ↦ (err why, r)
    | ok m' ↦ append_and_run m' r
  ]

  -- Continue: the last message has to wait for an answer, if no message is queued.
  unfoldable pub continue_run : Host Message
  continue_run r =
      let queued = has_queued_messages r.queues in
      let refused_at = λ (role : String). if queued then run_agent r else (
        err ("cannot continue from " ^^ role ^^ "; last message must be user or toolResult"),
        r,
      ) in
      elim (last? (build_context env.now r.session.manager r.session.leaf_id).messages) [
        | none ↦ (err "cannot continue: no messages in session", r)
        | some m ↦ elim m.role [
          | user ↦ run_agent r
          | tool ↦ run_agent r
          | assistant ↦ refused_at "assistant"
          | other s ↦ refused_at s
        ]
      ]
