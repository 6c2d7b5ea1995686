-- ===== src/Session.antt =====
-- internal/session/manager.go: the session manager.
pub mod Data
pub mod World
pub mod Ids
pub mod Append
pub mod Branch
pub mod Context
pub mod Open
pub mod Invariant
pub mod Grow
pub mod Lineage
pub mod History
pub mod Operations
pub mod Fresh
pub mod Total
pub mod Compaction
pub mod Reopen
pub mod Saved
pub mod Placed
pub mod Rebuilt
pub mod Listing
pub mod Listed
