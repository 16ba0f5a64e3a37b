-- ===== src/Protocol/Host.antt =====
-- The kinds of host against the rules of the lock.
mod Files
mod Units
mod Apt
mod Centos
pub mod Kinds
