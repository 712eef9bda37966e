-- ===== src/Tests/Upgrades.antt =====
-- A connection that becomes a websocket session.
use the_game.Base.{nat_eq, list_eq}
use the_game.Networking.Http.Session.Flight as HttpFlight
use the_game.Apps.Connections.Events as Sockets
use the_game.Apps.Program.{Program}
