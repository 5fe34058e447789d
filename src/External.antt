-- ===== src/External.antt =====
-- What the program calls and does not implement: each service is a record of operations that the
-- model takes as a parameter, and a record of the documented laws that the proofs rely on.
pub mod Redis
pub mod Json
pub mod Jwt
pub mod Database
pub mod EventTable
pub mod EventStats
pub mod Services
pub mod Schema
pub mod FastApi
pub mod Csv
