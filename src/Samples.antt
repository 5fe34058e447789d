-- ===== src/Samples.antt =====
-- Small services that meet the documented laws, for the examples and tests.
pub mod MemoryRedis
pub mod PlainJson
pub mod OpenJwt
pub mod ListDatabase
pub mod App
pub mod MemoryEvents
pub mod FewEvents
pub mod MemorySchema
pub mod Routing
pub mod Site
