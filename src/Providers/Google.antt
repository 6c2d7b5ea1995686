-- ===== src/Providers/Google.antt =====
-- internal/providers/google.go: the client of Google.
pub mod History
pub mod Answer
pub mod Clients
pub mod CloudCode
