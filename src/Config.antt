-- ===== src/Config.antt =====
-- src/config.rs: the configuration that the environment gives.
pub mod Parse
pub mod FromEnv
pub mod Admits
pub mod WellTyped
pub mod Opens
