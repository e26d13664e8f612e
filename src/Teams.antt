-- ===== src/Teams.antt =====
-- Teams: app/application/teams.py over the in-memory directory of
-- app/infrastructure/persistence/team_directory.py.
pub mod Directory
pub mod Managing
pub mod Reach
mod Tests
