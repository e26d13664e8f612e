-- ===== src/Lib.antt =====
-- The access rules and the job scheduler of the agents carrier, a service in which people keep agents,
-- data sources, scripts and workflows, and run workflows whose steps agents and sandboxed code carry out.
--
-- The parts that are modelled, and how they work together. A request carries a token or the static key;
-- `AuthorizationPolicy` of app/infrastructure/auth/authorization.py makes permissions of it (Auth.Policy,
-- Auth.Claims, Auth.Principal). Before a definition is saved, the gate of
-- app/infrastructure/auth/sandbox_guard.py looks for python steps that leave the sandbox (Auth.Sandbox),
-- also in the parts of combined steps, which app/infrastructure/orchestration/combined_datasource.py
-- walks (Combined). The save itself goes through `VisibilityScopedBackend` of
-- app/application/visibility.py (Visibility.Scoped): it stamps the owner and the team, asks the predicates
-- on the caller (Visibility.Predicates), and has `ReferenceGuard` check what the definition refers to and
-- what refers to it (Visibility.References, Visibility.Guard). The resources are those of
-- app/domain/models/ownership.py (Visibility.Model). Teams come from
-- app/infrastructure/persistence/team_directory.py (Teams.Directory), which app/application/teams.py lets
-- super admins and team admins change (Teams.Managing). A single resource is opened to a user or a
-- workflow by app/application/grants.py (Visibility.Sharing), and a run of that workflow finds it through
-- `WorkflowSources` (Visibility.Sources). A run of a workflow may hold a step
-- `type: dynamic`, a DAG of jobs that `JobDag` of app/infrastructure/orchestration/dynamic/engine.py
-- schedules: Dynamic.Model and Dynamic.Record are app/domain/models/dynamic.py, Dynamic.Dispatcher the
-- checks of a plan in dispatcher.py, Dynamic.Dag the state of the scheduler with its helpers,
-- Dynamic.Events `_ingest` and `_record`, Dynamic.Actions the `_do_` methods, Dynamic.Meta `validate` and
-- the meta-agent's `decide`, Dynamic.Launching `_ready` and `_launch_ready`, Dynamic.Ending
-- `_finish_or_fail`, Dynamic.Deciding `_consult` and `_resolve`, Dynamic.Schedule `schedule`, and
-- Dynamic.Retry `reset_for_retry`. A step that would destroy data waits for a case of
-- app/application/approval_service.py: Approvals.Case is the case, Approvals.Backend the in-memory store
-- of app/infrastructure/persistence/approval_backend.py, Approvals.Opening `open_case` and what the
-- meta-LLM may decide alone, Approvals.Deciding the answer, the timeout, the veto and the end of a run,
-- Approvals.Listing the listing with the filters that app/application/visibility.py sets for its caller.
--
-- A workflow is a graph of steps that
-- app/infrastructure/orchestration/yaml_graph.py builds and LangGraph runs: Graph.Model is the state with
-- its reducers, Graph.Guards the wrappers of `_make_node`, Graph.Joins the nodes that fan out and in,
-- Graph.Routing the routers, Graph.Building the edges of `_build`, Graph.Runs a run as a
-- sequence of supersteps.
-- Graph.Normalizing is app/application/step_normalization.py, which writes out the edges that a list of steps
-- leaves to its order.
--
-- How state and failure are written. An operation takes the state it reads and gives the state it leaves:
-- a `Platform` is the four stores and the directory, a `JobDag` the run with what the step collects. What
-- an operation raises is a value: `err` of Visibility.Model with the kind of the error, and `none` where
-- one exception is possible. An operation that raises before it writes leaves no state. A mutable job is
-- the entry of the list of jobs that has its id, which the checks of a plan keep unique. Optional texts,
-- JSON values and Python's truth values are those of Base.Texts and Base.Json.
--
-- What stands for code that is not here. The language model that answers as the meta-agent is a function
-- from the run, the situations and the errors of its first answer to an answer (`Ask`), and the one that
-- judges approvals a function of the case and its history. Python's parser and `eval`, for the condition
-- of a route, are a function from the text and the state to a truth value or nothing (`Evaluate`). The
-- body of a node is a function from the state to its output or an exception (`Body`). LangGraph runs
-- supersteps, as its documentation says: the nodes of one all see the state before it, their writes are merged by
-- the reducers of the channels, one node after another in an order that is left open, when all of them have
-- returned, and an edge or the map of a router leads on. Whether a GraphQL
-- document writes is a function of the document, a field of `Platform`, as it rests on regular expressions.
--
-- Bounds. `_nested_parts` stops at a depth of 16, and `nested_parts` counts the 17 levels down. The rounds
-- of `schedule` are at most four, as in the source. `visit` and `dependents_from` take fuel: each call of
-- `_visit` within another opens a node of the graph that was not open, and each turn of `_dependents` but
-- the first takes a job that was added once, so one more than the number of nodes or jobs is enough. `cancel_from` has
-- a round more than there are cases, as every round claims another. Past
-- its fuel `visit` answers that there is a cycle, so it never accepts a graph for lack of fuel.
--
-- What is not modelled. Times, random ids, logs' details, the texts of errors, prompts and payloads,
-- token usage; the context variables that carry a caller through a request; the visibility of
-- runs; the bodies of steps, agents and data sources, the HTTP API,
-- persistence, messaging and the runtimes, which are input and output.
pub mod Base
pub mod Auth
pub mod Combined
pub mod Teams
pub mod Visibility
pub mod Dynamic
pub mod Approvals
pub mod Graph
