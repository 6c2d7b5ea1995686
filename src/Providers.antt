-- ===== src/Providers.antt =====
-- internal/providers: the parts that do not talk to a service.
pub mod Transform
pub mod Http
pub mod OpenAi
pub mod Anthropic
pub mod Bedrock
pub mod Google
