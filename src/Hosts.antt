-- ===== src/Hosts.antt =====
-- hosts/: what a host reports, and the interface of a kind of host.
pub mod Config
pub mod Apt
pub mod Ubuntu
pub mod Centos
pub mod Kinds
pub mod Interface
