-- ===== src/Pdp.antt =====
-- platform/pdp/: the policy decision point.
pub mod Types
pub mod ActionMap
pub mod Principals
pub mod Decision
mod Tests
