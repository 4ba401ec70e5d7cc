-- ===== src/Absences.antt =====
-- backend/internal/absences: the table of absences with its CHECK constraints, the transactions of
-- repository.go, and the authorisation of service.go.
pub mod Store
pub mod Service
pub mod Overlap
pub mod Updates
pub mod History
pub mod Rights
