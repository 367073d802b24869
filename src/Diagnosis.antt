-- ===== src/Diagnosis.antt =====
-- The findings on a host: host_health/diagnosis.py.
pub mod Rows
pub mod Rules
pub mod Pressure
pub mod Evaluate
pub mod Sustained
pub mod Critical
pub mod Verdict
pub mod Texts
pub mod Redis
pub mod RedisRules
pub mod RedisChecks
pub mod RedisVerdict
mod Tests
