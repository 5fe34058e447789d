-- ===== src/Infrastructure.antt =====
-- src/infrastructure and src/main.py: what the process starts and stops, and what stands before the
-- routes.
pub mod Resources
pub mod Benchmark
