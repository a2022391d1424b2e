-- ===== src/Store.antt =====
-- The tables with the constraints that the schema declares, the database session as an interface,
-- and requests as actions over a session.
pub mod Schema
pub mod Database
pub mod Action
pub mod Simulation
pub mod Scalar
pub mod Preserves
pub mod Kept
pub mod Bystander
pub mod Request
pub mod ReadsOnly
