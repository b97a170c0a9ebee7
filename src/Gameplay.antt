-- ===== src/Gameplay.antt =====
-- internal/gameplay: the engine that checks players' actions and keeps their accounts.
pub mod Fees
pub mod Lots
pub mod Accounts
pub mod Desk
pub mod Trades
pub mod Stats
pub mod Orders
pub mod Tokens
pub mod Notices
pub mod IntelBuy
pub mod Portfolio
pub mod Sessions
pub mod Actions
mod Tests
