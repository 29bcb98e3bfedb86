-- ===== src/Fetch.antt =====
-- internal/fetch: which pages may be requested, and in what order a page load asks.
pub mod Guard
pub mod Robots
pub mod Shell
pub mod Client
pub mod Cache
pub mod Fetcher
mod Examples
