-- ===== src/Auth.antt =====
-- backend/internal/auth: accounts, sessions, single-use tokens and external identities.
pub mod Run
pub mod Store
pub mod Statements
pub mod Service
pub mod Traces
pub mod SingleUse
pub mod Reset
pub mod Sessions
pub mod Adoption
pub mod Uniform
