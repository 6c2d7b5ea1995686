-- ===== src/Agent.antt =====
-- internal/agent/runtime.go: the runtime with its message queues, compaction, fork and run loop.
pub mod Queues
pub mod Compact
pub mod Fork
pub mod Run
pub mod Runtime
