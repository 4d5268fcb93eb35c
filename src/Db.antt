-- ===== src/Db.antt =====
-- `internal/db`: the models, their validation and the queries.
pub mod Models
pub mod Validate
pub mod Gorm
pub mod Revisions
pub mod Contests
pub mod Sessions
