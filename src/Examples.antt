-- ===== src/Examples.antt =====
-- The theorems at concrete inputs, and runs of the operations.
mod Sessions
mod Auth
mod Overlap
mod Events
mod Passwords
mod Stats
mod Infrastructure
mod Ledger
mod Benchmark
mod Settings
mod Migrations
mod Site
mod Generated
mod Measured
