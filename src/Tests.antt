-- ===== src/Tests.antt =====
-- Runs of the modelled code on small data, and the theorems applied to them.
pub mod Roster
pub mod Escalation
pub mod Access
pub mod Absences
pub mod Polls
pub mod Pagination
pub mod Finances
pub mod Events
pub mod Attendance
pub mod Auth
pub mod Planning
