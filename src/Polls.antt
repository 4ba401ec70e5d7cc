-- ===== src/Polls.antt =====
-- backend/internal/polls: polls, their options and the votes of members.
pub mod Store
pub mod Assemble
pub mod Service
pub mod Tally
pub mod Anonymity
pub mod Votes
pub mod Voting
pub mod SingleChoice
