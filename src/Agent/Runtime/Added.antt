-- ===== src/Agent/Runtime/Added.antt =====
-- internal/agent/runtime.go: the statistics of a session with one more message.
use pi_go_coding_agent.Session.World.{Session}
use pi_go_coding_agent.Agent.Runtime.{Runtime}

-- The runtime with another session.
abbrev pub with_session : Session → Runtime → Runtime
with_session s r = record r { session = s }
