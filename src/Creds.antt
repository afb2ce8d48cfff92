-- ===== src/Creds.antt =====
-- internal/creds: console passwords and SSH keys from a secure store, and the check for changes.
pub mod Config
pub mod Storage
pub mod Passwords
pub mod Keys
pub mod Monitor
pub mod Examples
