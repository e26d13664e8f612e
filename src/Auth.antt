-- ===== src/Auth.antt =====
-- Role-based authorization: app/infrastructure/auth/authorization.py and sandbox_guard.py.
-- `Policy` has the permissions and the policy, `Claims` the roles of a token, `Principal` what is
-- bound to a task, and `Sandbox` the gate for python steps; the other children are proofs.
pub mod Policy
pub mod Claims
pub mod Principal
pub mod Sandbox
pub mod Grants
pub mod Gate
pub mod Inspection
pub mod Roles
mod Tests
