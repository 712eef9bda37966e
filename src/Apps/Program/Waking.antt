-- ===== src/Apps/Program/Waking.antt =====
-- What a timer of the simple game sends when it fires, in the whole server.
use the_game.Base.{
  ℕ, ◌-◌, ◌≡◌, ◌≢◌, refl, ◌∙◌, inl, List, [], ◌∷◌, ◌++◌, some, find, nat_eq, ok, arith,
}
use the_game.Networking.Boost.{Boost, Endpoint}
use the_game.Networking.NetUtils.{Acceptors}
use the_game.Networking.Listener.{Listener, make_listener, start}
use the_game.Networking.Websocket.{WsSession, append_and_write}
use the_game.Apps.Connections.{Timer}
use the_game.Apps.SimpleGame.{timer_at, without}
use the_game.Apps.SimpleGame.Firing.{fire-sends}
use the_game.Apps.Listeners.{Routes, game_routes}
use the_game.Apps.Program.{Program, Completion, timer, step, run_all, timer_done}
use the_game.Apps.Program.Runs.{AreRegular}
use the_game.Apps.Program.Reached.{reached, run_all-append}
use the_game.Apps.Program.Started.{new_program}

module _ (b : Boost) (ac : Acceptors b Endpoint) where
  -- A listener of the simple game is constructed and started, any regular completions are handled,
  -- and a timer that is there then fires. The run with this last completion returns; the session for
  -- which the timer was started is still alive, even if its client has gone, and is sent what it had not
  -- been sent yet and the state as it is by then; one timer less holds it; the timer is gone, and every
  -- other session is as it was.
  pub listener_run-fires :
      (endpoint : Endpoint) (a : ac.Acceptor) (rm : Routes b)
      → game_routes b ≡ ok (some rm)
      → (l : Listener b ac (Program b)) → (make_listener b ac endpoint a (new_program b)).0 ≡ inl l
      → (cs : List (Completion b)) → AreRegular b ac rm cs (start b ac l)
      → (l1 : Listener b ac (Program b)) → run_all b ac (some rm) cs (start b ac l) ≡ ok l1
      → (k : ℕ) (t : Timer) → timer_at k l1.app.server.app.timers ≡ some t
      → (l2 : Listener b ac (Program b)) × (s : WsSession b.Request) × (s' : WsSession b.Request)
        × (run_all b ac (some rm) (cs ++ timer k ∷ []) (start b ac l) ≡ ok l2)
        × (find t.session l1.app.server.sessions ≡ some s)
        × (find t.session l2.app.server.sessions ≡ some s')
        × (s'.frames ≡ s.frames ++ (s.write_buf ++ l1.app.server.app.state) ∷ [])
        × (s'.held ≡ s.held - 1)
        × (l2.app.server.app.timers ≡ without k l1.app.server.app.timers)
        × ((j : ℕ) → t.session ≢ j → find j l2.app.server.sessions ≡ find j l1.app.server.sessions)
  unfolding run_all step timer_done append_and_write
  listener_run-fires endpoint a rm built l made cs regular l1 ran k t next =
      let r = reached b ac endpoint a rm (inl built) l made cs regular l1 ran in
      let (s, st, alive, fired_now, there, others, gone) =
        fire-sends b k t l1.app.server r.serving.safe.ready next in
      (
        record l1 { app = record l1.app { server = st } },
        s,
        _,
        run_all-append b ac (some rm) cs _ (start b ac l) l1 ran
            ∙ ground (arith, r.serving.running, fired_now),
        alive,
        there,
        refl,
        refl,
        gone,
        others,
      )
