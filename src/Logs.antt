-- ===== src/Logs.antt =====
-- internal/logs: aggregation of the console logs and their rotation.
pub mod Config
pub mod AggLog
pub mod Tails
pub mod Rotation
pub mod RotateConf
pub mod Service
pub mod Examples
