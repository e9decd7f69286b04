-- ===== src/Domain.antt =====
-- The journey aggregate (crates/journey_dynamics/src/domain).
pub mod JsonPath
pub mod Schema
pub mod Events
pub mod Commands
pub mod Journey
