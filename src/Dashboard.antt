-- ===== src/Dashboard.antt =====
-- services/dashboard-api: what an operator changes, and the rules that it gives the decision engine.
pub mod Tags
pub mod Rules
pub mod Audit
pub mod Manifests
pub mod SafeMode
pub mod Campaigns
pub mod Fallback
pub mod Snapshots
pub mod Plays
pub mod Analytics
pub mod Uptime
pub mod Sinks
pub mod Status
pub mod Assets
pub mod Listings
