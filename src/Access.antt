-- ===== src/Access.antt =====
-- Access control: the permission levels of roles (backend/internal/teams/model.go,
-- backend/internal/members/repository.go, backend/internal/roles/repository.go) and the HTTP
-- middleware that enforces them (backend/internal/middleware/authz.go).
pub mod Permissions
pub mod Levels
pub mod Middleware
pub mod Routing
pub mod Gate
