-- ===== src/Agent/Run/Rounds/Returned.antt =====
-- internal/agent/runtime.go: the transcript through the rounds of a run, and when a run returns.
use pi_go_coding_agent.Agent.Queues.{Queues}
use pi_go_coding_agent.Agent.Run.{Run}
use pi_go_coding_agent.Agent.Run.Rounds.Extends.{Extends}
