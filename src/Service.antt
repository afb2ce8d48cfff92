-- ===== src/Service.antt =====
-- cmd/remote-console: the configuration, the start and the loops of the service.
pub mod Config
pub mod Startup
pub mod Loops
pub mod ConmanLoop
pub mod Run
pub mod Examples
mod RunExamples
