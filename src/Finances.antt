-- ===== src/Finances.antt =====
-- backend/internal/finances: transactions, penalties, their assignments, and contributions.
pub mod Store
pub mod Transactions
pub mod Penalties
pub mod Contributions
pub mod Links
pub mod Relinks
pub mod Ledger
pub mod Totals
pub mod Batch
pub mod Cashbook
