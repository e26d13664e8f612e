-- ===== src/Dynamic.antt =====
-- The DAG of jobs of a `type: dynamic` step: app/domain/models/dynamic.py and
-- app/infrastructure/orchestration/dynamic.
pub mod Model
pub mod Record
pub mod Dispatcher
pub mod Dag
pub mod Events
pub mod Actions
pub mod Meta
pub mod Launching
pub mod Ending
pub mod Deciding
pub mod Schedule
pub mod Outcome
pub mod Caps
pub mod Reports
pub mod Plans
pub mod Retry
pub mod Visiting
pub mod Acyclic
pub mod Cyclic
mod Tests
