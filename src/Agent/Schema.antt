-- ===== src/Agent/Schema.antt =====
-- extensions/agent/schema.go: the contract of a tool's arguments.
pub mod Check
pub mod Names
pub mod Valid
pub mod Laws
