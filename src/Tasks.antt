-- ===== src/Tasks.antt =====
-- The durable task store of the agent module, extensions/agent/tasks/tasks.go.
pub mod Rows
pub mod Keeps
pub mod Types
pub mod Sql
pub mod Submit
pub mod Approve
pub mod Claim
pub mod Complete
pub mod Sweep
pub mod Intent
pub mod Reconcile
pub mod Worker
pub mod Atomic
pub mod Inversion
pub mod Available
pub mod Fencing
pub mod Race
mod Tests
pub mod Alike
pub mod Accounts
pub mod Calls
pub mod Blind
