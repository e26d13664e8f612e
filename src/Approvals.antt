-- ===== src/Approvals.antt =====
-- The gate in front of destructive operations: app/application/approval_service.py, the cases of
-- app/domain/models/approval_case.py and their store in app/infrastructure/persistence/approval_backend.py.
pub mod Case
pub mod Backend
pub mod Opening
pub mod Deciding
pub mod Moves
pub mod Once
pub mod Stays
pub mod Streak
pub mod Found
pub mod Remaining
pub mod Cancelling
pub mod Listing
pub mod Hiding
mod Tests
