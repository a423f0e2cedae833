-- ===== src/Agent.antt =====
-- The single-agent runtime: extensions/agent.
pub mod Schema
pub mod Budget
pub mod Runner
pub mod Audit
mod Tests
