-- ===== src/Events.antt =====
-- backend/internal/events: events and series with their creation, changes and deletion, responses to
-- events and nominations (repository.go, service.go), and the attendance list of an event with its
-- redaction.
pub mod Store
pub mod Service
pub mod Responses
pub mod Permissions
pub mod Guards
pub mod Accepts
pub mod Nominations
pub mod Attendance
pub mod Listing
pub mod Redaction
pub mod Confidential
pub mod Series
pub mod Creation
pub mod Changes
pub mod Removals
pub mod Targets
pub mod WellPlanned
pub mod Planning
pub mod Agenda
pub mod Endings
pub mod NewEvents
pub mod Lifecycle
pub mod Kept
pub mod Held
pub mod Past
pub mod Remainder
pub mod Untouched
pub mod Owners
pub mod Planner
pub mod FirstRow
pub mod Announced
