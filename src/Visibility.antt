-- ===== src/Visibility.antt =====
-- Who may see and change an agent, data source, script or workflow: app/application/visibility.py and
-- app/domain/models/ownership.py. The children Sight, Scope, Checks, Saving, Granted and
-- Grantees are proofs.
pub mod Model
pub mod Predicates
pub mod References
pub mod Guard
mod Equality
pub mod Scoped
pub mod Sharing
pub mod Sight
pub mod Scope
pub mod Checks
pub mod Saving
pub mod Granted
pub mod Grantees
pub mod Sources
mod Tests
