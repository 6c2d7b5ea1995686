-- ===== src/Agent/Run/Rounds/Retries.antt =====
-- internal/agent/runtime.go: the automatic retries of a request that keeps failing.
use pi_go_coding_agent.Base.{ℕ, suc, String, true, false, List, [], none, ◌≡◌, refl, ◌∙◌, leb}
use pi_go_coding_agent.Types.{Message}
use pi_go_coding_agent.Agent.Run.{Transcript, fails, Outside, Run, provider_failed}
use pi_go_coding_agent.Agent.Run.Rounds.{
  stopped_at, append_all, retry, recover, use_completion, ask_provider, request, round, rounds,
  retryable, auto_retry_max_attempts,
}

-- A provider that fails each time with the same error, which may be retried, and nobody aborts.
pub record KeepsFailing (o : Outside) (why : String) : Type 0 where
  pub fails_each_time : (n : ℕ) (ms : List Message) → o.complete n ms ≡ fails why
  pub provider_there : (n : ℕ) → o.no_provider n ≡ none
  pub may_retry : retryable o why ≡ true
  pub not_aborted : (n : ℕ) → o.is_aborted n ≡ false
  pub not_cancelled : (n : ℕ) → o.wait_cancelled n ≡ false
  pub retries_on : (n : ℕ) → o.auto_retry n ≡ true
  pub compaction_off : (n : ℕ) → o.auto_compaction n ≡ false

module _ (o : Outside) {T : Type 0} (session : Transcript T) (why : String)
    (f : KeepsFailing o why) where
  asked : Run T → Run T
  asked s = record s { point = suc s.point }

  round_fails :
      (n : ℕ) (last : Message) (s : Run T)
      → round o session [] n last s ≡ retry o session why n last (asked s)
  unfolding round append_all request ask_provider use_completion recover asked
  round_fails n last s = simp (
    f.not_aborted, f.compaction_off, f.provider_there, f.fails_each_time, f.retries_on, f.may_retry,
    round, request, ask_provider, use_completion, recover,
  )

  another_round :
      (k n : ℕ) (last : Message) (s : Run T)
      → leb auto_retry_max_attempts n ≡ false
      → rounds o session (suc k) [] n last s ≡ rounds o session k [] (suc n) last (asked s)
  unfolding rounds retry
  another_round k n last s few = simp (rounds, round_fails n last s, few, f.not_cancelled, retry)

  last_round :
      (k n : ℕ) (last : Message) (s : Run T)
      → leb auto_retry_max_attempts n ≡ true
      → rounds o session (suc k) [] n last s ≡ stopped_at last (provider_failed why) (asked s)
  unfolding rounds retry
  last_round k n last s many = simp (rounds, round_fails n last s, many, retry)

  -- If retries are on, automatic compaction is off, and nobody aborts or cancels, a request that
  -- keeps failing with an error that may be retried is sent four times, and the run stops with the
  -- provider's error.
  pub retries_run_out :
      (k : ℕ) (last : Message) (s : Run T)
      → rounds o session (suc (suc (suc (suc k)))) [] 0 last s
        ≡ stopped_at last (provider_failed why) (record s { point = suc (suc (suc (suc s.point))) })
  unfolding asked
  retries_run_out k last s =
      another_round (suc (suc (suc k))) 0 last s refl
      ∙ (another_round (suc (suc k)) 1 last (asked s) refl
          ∙ (another_round (suc k) 2 last (asked (asked s)) refl
              ∙ last_round k 3 last (asked (asked (asked s))) refl))
