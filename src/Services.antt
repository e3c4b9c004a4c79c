-- ===== src/Services.antt =====
pub mod Listener
pub mod Watcher
pub mod WebServer
pub mod Timing
pub mod Options
pub mod Launch
