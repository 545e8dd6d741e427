-- ===== src/Process.antt =====
-- The start of the program: main.go, cmd/ and internal/di/setup.go.
pub mod Config
pub mod Container
pub mod Main
pub mod Shutdown
mod Tests
