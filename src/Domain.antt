-- ===== src/Domain.antt =====
-- The domain library (domain/): cards, the deck and the players.
pub mod Card
pub mod Deck
pub mod Player
