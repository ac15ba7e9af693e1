-- ===== src/Service.antt =====
-- src/main.rs: the tasks of the service together, over one channel of jobs.
pub mod Steps
pub mod Causes
pub mod Owed
pub mod Whole
