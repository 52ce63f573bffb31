-- ===== src/Core.antt =====
-- internal/core: the domain vocabulary that every layer shares.
pub mod State
pub mod Criteria
pub mod Termination
pub mod Rig
pub mod Label
