-- ===== src/Stats.antt =====
-- src/endpoint_stats: daily active users, the most frequent events, and weekly retention.
pub mod Utils
pub mod Routers
pub mod Distinct
