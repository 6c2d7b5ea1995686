-- ===== src/Agent/Fork/Lost.antt =====
-- internal/agent/runtime.go: what becomes of a compaction that forkSession copies.
use pi_go_coding_agent.Session.World.{Session}
