-- ===== src/Resolve.antt =====
-- internal/pipeline/resolve.go: how the events of a check are merged into the tables.
pub mod Titles
pub mod Tables
pub mod Orgs
pub mod Names
pub mod People
pub mod Events
pub mod Check
pub mod Frame
pub mod Growth
pub mod Known
pub mod Found
pub mod Again
pub mod Merge
pub mod Counts
pub mod Totals
pub mod Typed
pub mod Examples
