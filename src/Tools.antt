-- ===== src/Tools.antt =====
-- internal/tools: the tools of the agent.
pub mod Numbers
pub mod Read
pub mod Edit
pub mod Registry
