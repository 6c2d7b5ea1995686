-- ===== src/Providers/Bedrock.antt =====
-- internal/providers/bedrock.go: the client of Amazon Bedrock.
pub mod History
pub mod Answer
pub mod Client
