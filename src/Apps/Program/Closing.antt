-- ===== src/Apps/Program/Closing.antt =====
-- When the destructor of a websocket session closes its stream, in a whole server.
use the_game.Base.{ℕ, ◌≤◌, ◌≡◌, ap, ◌∙◌, ◌⊎◌, inl, true, List, [], some, find, nat_eq, ok}
use the_game.Networking.Boost.{Boost, Endpoint}
use the_game.Networking.NetUtils.{Acceptors}
use the_game.Networking.Listener.{Listener, make_listener, start}
use the_game.Networking.Websocket.{WsSession}
use the_game.Apps.Listeners.{Routes, game_routes, build_route_manager}
use the_game.Apps.Program.{Program, Completion, run_all}
use the_game.Apps.Program.Runs.{AreRegular, run_all-Serves}
use the_game.Apps.Program.Started.{
  new_program, game-or-server-IsTame, started-IsServing, started-app, started-IsHeld,
}

module _ (b : Boost) (ac : Acceptors b Endpoint) where
  -- A listener of the simple game, or a `TcpListener` of the simple server, is constructed and started,
  -- and any regular completions are handled. Then the run returns; no websocket session has sent a close
  -- frame, though the destructor of each one that has gone has called `Close`; and every websocket
  -- session whose stream is open is kept alive by a read in flight.
  pub listener_run-close_frames :
      (endpoint : Endpoint) (a : ac.Acceptor) (rm : Routes b)
      → (game_routes b ≡ ok (some rm)) ⊎ (build_route_manager b ≡ ok (some rm))
      → (l : Listener b ac (Program b)) → (make_listener b ac endpoint a (new_program b)).0 ≡ inl l
      → (cs : List (Completion b)) → AreRegular b ac rm cs (start b ac l)
      → (l' : Listener b ac (Program b)) × (run_all b ac (some rm) cs (start b ac l) ≡ ok l')
        × (l'.app.server.close_frames ≡ [])
        × ((id : ℕ) (s : WsSession b.Request)
            → find id l'.app.server.sessions ≡ some s
            → s.is_open ≡ true
            → 1 ≤ s.reading)
  listener_run-close_frames endpoint a rm routes l made cs regular =
      let app = started-app b ac endpoint a l made in
      let (l', ran, _, keeps) =
        run_all-Serves b ac rm (game-or-server-IsTame b ac rm routes) cs (start b ac l)
          (started-IsServing b ac endpoint a l made rm) regular in
      let none_yet = started-IsHeld b ac endpoint a l made in
      (
        l',
        ran,
        keeps.quietly.silent none_yet ∙ ap (λ (p : Program b). p.server.close_frames) app,
        λ id s alive. (keeps.quietly.held none_yet id s alive).0,
      )
