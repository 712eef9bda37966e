-- ===== src/Tests.antt =====
-- The theorems at concrete inputs, and runs of the definitions.
mod Samples
mod Clients
mod Cards
mod Network
mod Sessions
mod Games
mod Programs
mod Informing
mod Orders
mod Replies
mod ServerMains
mod Losses
mod Upgrades
mod Echoes
mod Audience
mod Visits
