-- ===== src/Providers/Anthropic.antt =====
-- internal/providers/anthropic.go: the client of Anthropic.
pub mod History
pub mod Client
pub mod Pairs
