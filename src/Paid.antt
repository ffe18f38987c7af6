-- ===== src/Paid.antt =====
-- Paid discovery: backend/services/paid_*.py, backend/repositories/paid_*.py and their rows.
pub mod Model
pub mod Constraints
pub mod Targeting
pub mod Configuration
pub mod Database
pub mod Frequency
pub mod Writes
pub mod Transitions
pub mod Campaigns
pub mod Eligibility
pub mod Delivery
pub mod Contexts
pub mod Calls
pub mod Rules
pub mod Steps
pub mod Accounts
pub mod History
pub mod Replay
pub mod Cursor
pub mod Ranking
pub mod Candidates
