-- ===== src/Intel.antt =====
-- internal/intel/engine.go: what players can buy about the next market event. A payload is told by
-- its content; the order in which the buyers of a preview are notified is left out.
pub mod Feeds
pub mod Access
pub mod Analytics
pub mod Shop
mod Tests
