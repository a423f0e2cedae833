-- ===== src/Web.antt =====
-- Parts of the web framework: pkg/bear.
pub mod Tracker
pub mod Limiter
pub mod Migration
pub mod Plugin
pub mod Lifecycle
pub mod Fairing
mod Tests
