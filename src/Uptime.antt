-- ===== src/Uptime.antt =====
-- The uptime monitor: uptime_monitor/maintenance.py and tasks/uptime_kuma_poller.py.
pub mod Maintenance
pub mod Checks
pub mod Reconcile
mod Tests
