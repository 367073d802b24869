-- ===== src/Alerts.antt =====
-- alerts/: the alert log, the recipient lists, the fan-out of alerts over the channels, and the
-- summaries.
pub mod Log
pub mod Recipients
pub mod Channels
pub mod Dispatch
pub mod Summaries
mod Tests
