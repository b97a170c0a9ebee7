-- ===== src/Client.antt =====
-- The state that the terminal client of cmd/game-client keeps and changes. Drawing, the network and
-- the decoding of JSON are left out. Coordinates of the screen are natural numbers.
pub mod Chart
pub mod State
pub mod Ticket
pub mod Chat
pub mod Input
pub mod Screen
pub mod Loop
mod Tests
