-- ===== src/Server.antt =====
-- internal/server: the HTTP side of the program.
pub mod Http
pub mod Libraries
pub mod Auth
pub mod Handlers
pub mod Running
mod Tests
