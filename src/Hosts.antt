-- ===== src/Hosts.antt =====
-- Host health: what the SSH poller's reports and the watchdog do to a monitored host.
pub mod Heartbeat
pub mod Services
pub mod Benches
pub mod Workers
pub mod Sites
pub mod Rounds
pub mod Status
pub mod Disks
pub mod Mounts
pub mod Load
pub mod Memory
pub mod Redis
pub mod Reports
pub mod Samples
mod Tests
mod ResourceTests
mod PerformanceTests
