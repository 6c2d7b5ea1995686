-- ===== src/Agent/Run/Calls.antt =====
-- internal/agent/runtime.go: the loop of runLoop over the tool calls of a completion.
pub mod Answers
use pi_go_coding_agent.Base.{
  ℕ, suc, String, Bool, true, false, List, [], ◌∷◌, ◌++◌, Option, none, some, not, ◌==◌,
  if◌then◌else◌,
}
use pi_go_coding_agent.Base.Text.{trim_space, ◌^^◌}
use pi_go_coding_agent.Types.{
  Message, ContentBlock, text_block, Fields, ToolCall, ToolResult, tool_result_message,
}
use pi_go_coding_agent.Session.World.{Result, ok, err}
use pi_go_coding_agent.Agent.Queues.{Queues, dequeue_steering}
use pi_go_coding_agent.Agent.Run.{
  Transcript, Failure, canceled, failed, Override, Outside, Run, Stop, aborted, refused,
}

abbrev pub skipped_tool_call_reason : String
skipped_tool_call_reason = "Skipped due to queued user message."

abbrev text_failure : String → ToolResult
text_failure s = record { content = text_block s ∷ []; details = none; is_error = true }

-- What becomes of a result that comes with an error; `none` is the return of ErrAborted.
executed : ToolResult → Option Failure → Option ToolResult
executed r none = some r
executed r (some canceled) = none
executed r (some (failed why)) = elim r.content [
  | [] ↦ some (record r { content = text_block why ∷ []; is_error = true })
  | b ∷ bs ↦ some (record r { is_error = true })
]

overridden : Option Override → ToolResult → ToolResult
overridden none r = r
overridden (some v) r = record {
  content = elim v.content [ [] ↦ r.content | b ∷ bs ↦ b ∷ bs ];
  details = elim v.details [ none ↦ r.details | some d ↦ some d ];
  is_error = elim v.is_error [ none ↦ r.is_error | some e ↦ e ];
}

-- The end of the loop: the steering messages that interrupted it, or none; or a return.
pub data CallsEnd : Type 0 where
  finished : List Message → CallsEnd
  stopped : Stop → CallsEnd

module _ (o : Outside) where
  -- The result of a call before the event tool_result.
  unfoldable pub call_result : ℕ → ToolCall → Option ToolResult
  unfolding executed
  call_result n c =
      if not (o.is_tool_active n c.name)
      then some (text_failure ("tool is not active: " ^^ c.name))
      else elim (o.blocks n c) [
        | some reason ↦
            let why = trim_space reason in
            some (text_failure (if why == "" then "tool execution blocked by extension" else why))
        | none ↦ let (r, e) = o.execute n c in executed r e
      ]

  unfoldable pub answer : ℕ → ToolCall → ToolResult → Message
  unfolding overridden
  answer n c r = tool_result_message (o.time n) c.id c.name (overridden (o.overrides n c r) r)

  unfoldable pub skip_answer : ℕ → ToolCall → Message
  skip_answer n c =
      tool_result_message (o.time n) c.id c.name (text_failure skipped_tool_call_reason)

  module _ {T : Type 0} (session : Transcript T) where
    abbrev move : T → Queues → Run T → Run T
    move t q s = record { transcript = t; queues = q; point = suc s.point }

    -- The calls that are left when there is steering.
    unfoldable pub skip_calls : List Message → List ToolCall → Run T → CallsEnd × Run T
    skip_calls steering [] s = (finished steering, s)
    skip_calls steering (c ∷ cs) s =
        let (r, t) = session.append (skip_answer s.point c) s.transcript in
        elim r [
          | err why ↦ (stopped (refused why), move t s.queues s)
          | ok u ↦ skip_calls steering cs (move t s.queues s)
        ]

    unfoldable pub run_calls : List ToolCall → Run T → CallsEnd × Run T
    run_calls [] s = (finished [], s)
    run_calls (c ∷ cs) s =
        if o.is_aborted s.point then (stopped aborted, s) else elim (call_result s.point c) [
          | none ↦ (stopped aborted, s)
          | some result ↦
              let (r, t) = session.append (answer s.point c result) s.transcript in
              elim r [
                | err why ↦ (stopped (refused why), move t s.queues s)
                | ok u ↦
                    let (steering, q) = dequeue_steering (o.arrivals s.point s.queues) in
                    elim steering [
                      | [] ↦ run_calls cs (move t q s)
                      | m ∷ ms ↦ skip_calls (m ∷ ms) cs (move t q s)
                    ]
              ]
        ]
