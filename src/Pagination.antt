-- ===== src/Pagination.antt =====
-- backend/internal/pagination and the keyset pages that the list endpoints build with it.
pub mod Limits
pub mod Cursor
pub mod Keyset
