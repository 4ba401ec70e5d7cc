-- ===== src/Roster/Invariant.antt =====
-- The invariant of the roster: the keys of the tables and the teams of assigned roles, and that a
-- team has a settings administrator whose account is active.
mod Defs
mod Joins
pub mod SetRoles
pub mod RemoveMember
pub mod UpdateRole
pub mod DeleteRole
pub mod NewTeams
pub mod Invites
pub mod Erase
pub use Defs.*
pub use Joins.*
