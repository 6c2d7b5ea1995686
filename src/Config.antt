-- ===== src/Config.antt =====
-- internal/config: the registry of models, and the credentials.
pub mod Auth
pub mod Models
