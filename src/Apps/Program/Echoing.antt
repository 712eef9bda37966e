-- ===== src/Apps/Program/Echoing.antt =====
-- What a client of a whole server gets back for a message.
use the_game.Base.{
  ℕ, ◌≤◌, ◌≡◌, ◌≢◌, refl, ◌∙◌, ◌⊎◌, inl, Bool, List, [], ◌∷◌, ◌++◌, some, Text, codes, find, nat_eq,
  nat_beq_iff, ok, arith, drop-length,
}
use the_game.Networking.Boost.{Boost, Endpoint}
use the_game.Networking.NetUtils.{Acceptors}
use the_game.Networking.Listener.{Listener, make_listener, start}
use the_game.Networking.Websocket.{WsSession, put_session}
use the_game.Networking.Websocket.Stores.{find-put_session, put_session-alive}
use the_game.Apps.Connections.Echo.{echoed, message_result}
use the_game.Apps.Connections.Events as Sockets
use the_game.Apps.Listeners.{Routes, game_routes, build_route_manager}
use the_game.Apps.Program.{Program, Completion, socket, step, run_all, ws_done}
use the_game.Apps.Program.Runs.{AreRegular}
use the_game.Apps.Program.Reached.{reached, run_all-append}
use the_game.Apps.Program.Started.{new_program}

module _ (b : Boost) (ac : Acceptors b Endpoint) where
  -- A listener of the simple game, or a `TcpListener` of the simple server, is constructed and started,
  -- any regular completions are handled, and the read of a websocket session completes with a message. The
  -- run with this last completion returns; the message with " UwU Kawaiiiiiiii!" behind it, and nothing
  -- of an earlier message, has been appended to what the session still had to send, and all of that handed to a write; the
  -- session's buffer is empty and one read is in flight again; and the other websocket sessions and
  -- the listener's members are as they were.
  pub listener_run-echoes :
      (endpoint : Endpoint) (a : ac.Acceptor) (rm : Routes b)
      → (game_routes b ≡ ok (some rm)) ⊎ (build_route_manager b ≡ ok (some rm))
      → (l : Listener b ac (Program b)) → (make_listener b ac endpoint a (new_program b)).0 ≡ inl l
      → (cs : List (Completion b)) → AreRegular b ac rm cs (start b ac l)
      → (l1 : Listener b ac (Program b)) → run_all b ac (some rm) cs (start b ac l) ≡ ok l1
      → (id : ℕ) (s : WsSession b.Request) (got_text : Bool) (message : Text)
      → find id l1.app.server.sessions ≡ some s
      → 1 ≤ s.reading
      → (l2 : Listener b ac (Program b)) × (s' : WsSession b.Request) × (run_all b ac
            (some rm)
            (cs ++ socket (Sockets.Event.received id got_text message) ∷ [])
            (start b ac l)
          ≡ ok l2)
        × (find id l2.app.server.sessions ≡ some s')
        × (s'.frames ≡ s.frames ++ (s.write_buf ++ (message ++ codes " UwU Kawaiiiiiiii!")) ∷ [])
        × (s'.writing ≡ s.writing ++ (s.write_buf ++ (message ++ codes " UwU Kawaiiiiiiii!")) ∷ [])
        × (s'.buffer ≡ [])
        × (s'.reading ≡ s.reading)
        × ((j : ℕ) → id ≢ j → find j l2.app.server.sessions ≡ find j l1.app.server.sessions)
        × (l2.app.server.app ≡ l1.app.server.app)
  unfolding run_all step ws_done Sockets.step put_session
  listener_run-echoes endpoint a rm routes l made cs regular l1 ran id s got_text message alive
        reads =
      let r = reached b ac endpoint a rm routes l made cs regular l1 ran in
      let st = l1.app.server in
      let empty = (r.held id s alive).1 in
      let self = r.serving.safe.ready.consistent.sound.opened id s alive reads in
      let answered = message_result b id s st alive self got_text message in
      let s' = echoed b got_text message s in
      (
        record l1 { app = record l1.app { server = put_session id s' st } },
        s',
        run_all-append b ac (some rm) cs _ (start b ac l) l1 ran
            ∙ ground (arith, r.serving.running, answered),
        put_session-alive id st s',
        rw empty refl,
        rw empty refl,
        drop-length (s.buffer ++ message),
        omega (arith, reads),
        λ j other. ground (arith, find-put_session id j st s', nat_beq_iff id j),
        refl,
      )
