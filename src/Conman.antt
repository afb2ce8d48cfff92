-- ===== src/Conman.antt =====
-- internal/conman: the configuration file of conmand, its process, and zombie processes.
pub mod Config
pub mod Base64
pub mod Entries
pub mod Sort
pub mod ConfigFile
pub mod Process
pub mod Zombies
pub mod Examples
