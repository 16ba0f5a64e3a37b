-- ===== src/Main.antt =====
-- The main package.
pub mod Conditions
pub mod Kube
pub mod Config
pub mod Scheduler
pub mod Run
