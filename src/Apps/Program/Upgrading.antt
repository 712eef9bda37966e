-- ===== src/Apps/Program/Upgrading.antt =====
-- How a connection of a whole server becomes a websocket session.
use the_game.Base.{Text, Result, ℕ, ◌≡◌, true, none, some, find, erase, nat_eq, list_eq, ok}
use the_game.Networking.Boost.{Boost, Endpoint}
use the_game.Networking.Http.Method.{method_eq}
use the_game.Networking.Http.Session.Flight as HttpFlight
use the_game.Networking.Websocket.{WsSession}
use the_game.Networking.Websocket.Session.{run, new_session}
use the_game.Apps.Connections.{Server}
use the_game.Apps.Connections.Registry.{IsConsistent}
use the_game.Apps.Connections.Events as Sockets
use the_game.Apps.Listeners.{Routes, game_routes}
use the_game.Apps.Program.{Connection, Program}

module _ (b : Boost) (rm : Routes b) (built : game_routes b ≡ ok (some rm)) where
  abbrev left_with : ℕ → Connection b → Program b → b.Request → Program b
  left_with k c p request = record p {
    connections = erase k p.connections;
    server = run b request c.remote c.session.local_endpoint p.server;
  }

  -- The new websocket session, its handshake in flight, and what becomes of it.
  module _ (request : b.Request) (remote local : Endpoint) (st : Server b)
      (c : IsConsistent b st) where
    abbrev waiting : WsSession b.Request
    waiting = new_session b request remote local

    abbrev with_waiting : Server b
    with_waiting = run b request remote local st

    abbrev Opened : Text → Result (Server b) → Type 0
    Opened key r =
        (st' : Server b) × (t : WsSession b.Request) × (r ≡ ok st')
        × (find st.next_id st'.sessions ≡ some t)
        × (t.is_open ≡ true)
        × (t.accepting ≡ 0)
        × (t.reading ≡ 1)
        × (t.ctx.uuid ≡ key)
        × (find key st'.app.ctxs ≡ some st.next_id)

    abbrev Refused : Result (Server b) → Type 0
    Refused r =
        (st' : Server b) × (r ≡ ok st') × (find st.next_id st'.sessions ≡ none) × (st'.app ≡ st.app)
