-- ===== src/Workflows.antt =====
-- internal/workflows/engine.go: the data (Types), the engine (Engine), and what it guarantees.
pub mod Types
pub mod Engine
pub mod Advance
pub mod Tick
pub mod Progress
pub mod Starting
mod Examples
