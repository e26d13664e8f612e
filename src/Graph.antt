-- ===== src/Graph.antt =====
-- The control flow of a workflow: the guards round its nodes, its routers and its edges, in
-- app/infrastructure/orchestration/yaml_graph.py, and the edges that app/application/step_normalization.py writes
-- out. LangGraph, which runs the nodes, is not here.
pub mod Model
pub mod Guards
pub mod Runs
pub mod Counting
pub mod Merging
pub mod Working
pub mod Loops
pub mod Halting
pub mod Joins
pub mod FirstWins
pub mod Routing
pub mod Building
pub mod Closed
pub mod Arriving
pub mod Branches
mod Tests
pub mod Normalizing
pub mod SameExits
pub mod SameGraph
pub mod Falling
pub mod Implicit
