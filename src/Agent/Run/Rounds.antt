-- ===== src/Agent/Run/Rounds.antt =====
-- internal/agent/runtime.go: the rounds of runLoop.
pub mod Extends
pub mod Returned
pub mod Retries
use pi_go_coding_agent.Base.{
  ℕ, zero, suc, String, Bool, true, false, List, [], ◌∷◌, ◌++◌, Option, none, some, last?, leb,
  ◌&&◌, not, if◌then◌else◌,
}
use pi_go_coding_agent.Types.{Role, assistant, Message, ToolCall}
use pi_go_coding_agent.Session.World.{Result, ok, err}
use pi_go_coding_agent.Agent.Queues.{Queues, dequeue_steering, dequeue_follow_up}
use pi_go_coding_agent.Agent.Run.{
  Transcript, Completion, completed, interrupted, fails, Outside, Run, Stop, aborted, refused,
  provider_failed, exceeded,
}
use pi_go_coding_agent.Agent.Run.Calls.{CallsEnd, finished, stopped, run_calls}

-- The round ends with a return, or another follows with the messages that are pending, the retries
-- so far and the last message of the assistant.
pub data Round (T : Type 0) : Type 0 where
  again : List Message → ℕ → Message → Run T → Round T
  returned : Message → Run T → Round T
  stopped_at : Message → Stop → Run T → Round T

abbrev pub auto_retry_max_attempts : ℕ
auto_retry_max_attempts = 3

abbrev pub max_rounds : ℕ
max_rounds = 128

-- isRetryableProviderError
abbrev pub retryable : Outside → String → Bool
retryable o why = not (o.is_overflow why) && o.is_retryable why

module _ (o : Outside) {T : Type 0} (session : Transcript T) where
  -- The state with another transcript, at the next point.
  abbrev pub at_transcript : T → Run T → Run T
  at_transcript t s = record s { transcript = t; point = suc s.point }

  abbrev pub arrived : Run T → Queues
  arrived s = o.arrivals s.point s.queues

  unfoldable pub append_all : List Message → Run T → Result (Unit {0}) × Run T
  append_all [] s = (ok tt, s)
  append_all (m ∷ ms) s =
      let (r, t) = session.append m s.transcript in
      elim r [ err why ↦ (err why, at_transcript t s) | ok u ↦ append_all ms (at_transcript t s) ]

  -- The retry of a request that failed with this error.
  unfoldable pub retry : String → ℕ → Message → Run T → Round T
  retry why attempts last s =
      if leb auto_retry_max_attempts attempts
      then stopped_at last (provider_failed why) s
      else if o.wait_cancelled s.point
      then stopped_at last (if o.is_aborted s.point then aborted else provider_failed why) s
      else again [] (suc attempts) last s

  -- What follows a request that failed.
  unfoldable pub recover : String → ℕ → Message → Run T → Round T
  unfolding retry
  recover why attempts last s =
      let (compacted, t) = session.compact s.point s.transcript in
      let tries_compaction = o.auto_compaction s.point && o.is_overflow why in
      let s' = if tries_compaction then at_transcript t s else s in
      if tries_compaction && compacted
      then again [] 0 last s'
      else if o.auto_retry s'.point && retryable o why
      then retry why attempts last s'
      else stopped_at last (provider_failed why) s'

  unfoldable pub after_calls : Message → CallsEnd × Run T → Round T
  after_calls m (finished steering, s) = again steering 0 m s
  after_calls m (stopped why, s) = stopped_at m why s

  unfoldable pub follow_up_or_return : Message → List Message × Queues → Run T → Round T
  follow_up_or_return m ([], q) s = returned m (record s { queues = q; point = suc s.point })
  follow_up_or_return m (x ∷ xs, q) s =
      again (x ∷ xs) 0 m (record s { queues = q; point = suc s.point })

  -- What follows the completion, once its message is appended.
  unfoldable pub use_calls : Message → List ToolCall → Run T → Round T
  unfolding after_calls follow_up_or_return
  use_calls m [] s = follow_up_or_return m (dequeue_follow_up (arrived s)) s
  use_calls m (c ∷ cs) s = after_calls m (run_calls o session (c ∷ cs) s)

  unfoldable pub use_completion : Completion → ℕ → Message → Run T → Round T
  use_completion interrupted attempts last s = stopped_at last aborted s
  use_completion (fails why) attempts last s = recover why attempts last s
  use_completion (completed m calls) attempts last s =
      let (r, t) = session.append m s.transcript in
      elim r [
        | err why ↦ stopped_at m (refused why) (at_transcript t s)
        | ok u ↦ use_calls m calls (at_transcript t s)
      ]

  unfoldable pub ask_provider : ℕ → Message → Run T → Round T
  ask_provider attempts last s = elim (o.no_provider s.point) [
    | some why ↦ stopped_at last (provider_failed why) s
    | none ↦
        use_completion (o.complete s.point (session.context s.transcript)) attempts last
          (record s { point = suc s.point })
  ]

  unfoldable pub request : ℕ → Message → Run T → Round T
  request attempts last s = ask_provider attempts last (
      if o.auto_compaction s.point
      then at_transcript (session.compact_threshold s.point s.transcript) s
      else s)

  -- One round of the loop.
  unfoldable pub round : List Message → ℕ → Message → Run T → Round T
  round pending attempts last s =
      if o.is_aborted s.point
      then stopped_at last aborted s
      else let (r, s') = append_all pending s in
        elim r [ err why ↦ stopped_at last (refused why) s' | ok u ↦ request attempts last s' ]

  unfoldable pub rounds : ℕ → List Message → ℕ → Message → Run T → Round T
  rounds zero pending attempts last s = stopped_at last exceeded s
  rounds (suc n) pending attempts last s = elim (round pending attempts last s) [
    | again pending' attempts' last' s' ↦ rounds n pending' attempts' last' s'
    | returned m s' ↦ returned m s'
    | stopped_at m why s' ↦ stopped_at m why s'
  ]

  -- The messages that a run begins with.
  unfoldable pub first_pending : Run T → List Message × Queues
  first_pending s =
      let (steering, q) = dequeue_steering s.queues in
      elim steering [
        | m ∷ ms ↦ (m ∷ ms, q)
        | [] ↦ elim (last? (session.context s.transcript)) [
          | none ↦ ([], q)
          | some m ↦ elim m.role [ assistant ↦ dequeue_follow_up q | _ ↦ ([], q) ]
        ]
      ]

  -- runLoop; `asked` are the messages of the event before_agent_start.
  unfoldable pub run_loop : List Message → Message → Run T → Round T
  run_loop asked no_message s =
      let (pending, q) = first_pending s in
      let (r, s') = append_all asked (record s { queues = q }) in
      elim r [
        | err why ↦ stopped_at no_message (refused why) s'
        | ok u ↦ rounds max_rounds pending 0 no_message s'
      ]
