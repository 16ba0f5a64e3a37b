-- ===== src/Systemd.antt =====
-- systemd/: commands as transient units, the journal, host information and reboots.
pub mod Journal
pub mod Exec
pub mod Hostname
pub mod Reboot
