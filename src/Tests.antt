-- ===== src/Tests.antt =====
-- The definitions at concrete inputs, and the theorems at inputs that meet their hypotheses.
mod World
mod Access
mod Imports
mod Files
mod Archives
mod Commits
mod Members
mod Orders
mod Revisions
mod Validation
mod Requests
mod Api
mod Logins
mod Assignments
