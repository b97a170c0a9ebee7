-- ===== src/Exchange.antt =====
-- internal/exchange: the shared market and its price engine. Payloads are not built.
pub mod Service
pub mod Flows
pub mod Engine
mod Tests
