-- ===== src/DataBase.antt =====
-- src/data_base: the models and the operations on users.
pub mod Models
pub mod Crud
