-- ===== src/Poller.antt =====
-- tasks/poller.py: the Proxmox poller, with the two-phase severity and the alert transitions.
pub mod Severity
pub mod Transition
pub mod Server
pub mod Stall
pub mod Backups
pub mod Resources
pub mod Storage
pub mod Tests
