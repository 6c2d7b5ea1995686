-- ===== src/Providers/OpenAi.antt =====
-- internal/providers/openai.go: the client of OpenAI and of the services that are compatible with it.
pub mod Ids
pub mod Messages
pub mod Compat
pub mod Endpoints
pub mod Chat
pub mod Input
pub mod Links
pub mod Completion
pub mod Stream
pub mod Events
pub mod Requests
pub mod Complete
