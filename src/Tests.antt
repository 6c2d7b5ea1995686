-- ===== src/Tests.antt =====
-- The theorems at concrete inputs.
mod Auth
mod Sessions
mod Files
mod Agents
mod Contexts
mod Others
mod Hosts
mod Clients
mod Listings
