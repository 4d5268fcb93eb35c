-- ===== src/Content.antt =====
-- `internal/content`: who may do what, the schedules, and the transactions on private content.
pub mod Access
pub mod Members
pub mod Reorder
pub mod Assignments
pub mod Reading
pub mod Files
