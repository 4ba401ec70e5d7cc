-- ===== src/Roster.antt =====
-- Members and roles of teams: the transactions of backend/internal/members/repository.go,
-- backend/internal/roles/repository.go, backend/internal/teams/repository.go and EraseUser of
-- backend/internal/auth/repository.go, over the tables that they share.
pub mod Db
pub mod Queries
pub mod Ceilings
pub mod Members
pub mod Roles
pub mod Teams
pub mod Accounts
pub mod Invariant
pub mod History
pub mod Escalation
