-- ===== src/Tests.antt =====
-- The code on concrete inputs, over a small platform.
pub mod Rests
pub mod Sample
pub mod Laws
pub mod Values
mod Handling
mod Histories
mod Cluster
mod Proxies
mod Clients
mod Memory
mod Requests
mod Redelivered
mod Progress
mod Tracked
mod Updated
