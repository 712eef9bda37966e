-- ===== src/Networking.antt =====
-- The networking library (networking/), over the parts of Boost that it calls.
pub mod Boost
pub mod NetUtils
pub mod Http
pub mod Listener
pub mod Routes
pub mod Websocket
