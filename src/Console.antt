-- ===== src/Console.antt =====
-- internal/console: the HTTP handlers and the sessions behind them.
pub mod LastLines
pub mod Sessions
pub mod Interactive
pub mod Handlers
pub mod WebSocket
pub mod Tail
pub mod Auth
pub mod Router
mod Examples
mod TailExamples
