-- ===== src/Apps/Program.antt =====
-- A whole server: what `io_context::run` of apps/simple_game/beast.cpp and apps/simple_server runs,
-- handler after handler. The listener's `OnAccept` makes HTTP sessions; these hand their sockets over to
-- websocket sessions and call the HTTP callbacks, which act on the listener's members, as the
-- websocket handlers and the timers do. Each part is the model of its own file.
pub mod Tame
pub mod Fit
pub mod Safety
pub mod Runs
pub mod Started
pub mod Main
pub mod Upgrading
pub mod Reached
pub mod Informing
pub mod Closing
pub mod Waking
pub mod Echoing
pub mod Happenings
pub mod Ordering
pub mod Losing
pub mod Unserved
pub mod ServerMain
use the_game.Base.{
  list_tail, ℕ, ◌+◌, Bool, true, false, List, [], ◌∷◌, Option, none, some, Dict, find, assign,
  erase, nat_eq, Result, ok, ◌>>=◌, if◌then◌else◌,
}
use the_game.Networking.Boost.{Boost, Endpoint}
use the_game.Networking.NetUtils.{Acceptors}
use the_game.Networking.Listener.{Listener, complete}
use the_game.Networking.Http.Session.{HttpSession, Launch, on_read, on_read_error, on_write}
use the_game.Networking.Http.Session.Flight as HttpFlight
use the_game.Networking.Websocket.Session.{run}
use the_game.Apps.Connections.{Server}
use the_game.Apps.Connections.Events as Sockets
use the_game.Apps.Listeners.{Routes, Handler, serve}
use the_game.Apps.SimpleGame.{fire}

module _ (b : Boost) where
  -- An HTTP session that some handler in flight keeps alive, and the other end of its socket.
  pub record Connection : Type 0 where
    pub remote : Endpoint
    pub session : HttpSession b (Handler b) (Server b)

  pub record Program : Type 0 where
    pub connections : Dict ℕ Connection
    pub next : ℕ
    pub server : Server b

  -- `OnAccept`, with the endpoints of the socket, the remote one first.
  unfoldable pub on_accept : Option (Routes b) → Endpoint × Endpoint → Program → Program
  unfolding serve
  on_accept routes (remote, local) p = record p {
    connections =
        assign p.next (record { remote = remote; session = serve b routes local p.server })
          p.connections;
    next = p.next + 1;
  }

  -- `std::make_shared<WebSocketSession>(…)->Run()`, where a request has led to it. `params_` is stored
  -- there and never read. The handler of a session is the routes' only one, `game_handler`, which the
  -- websocket events run.
  unfoldable pub launch_all :
      Endpoint → Endpoint → List (Launch b (Handler b)) → Server b → Server b
  unfolding run
  launch_all remote local [] st = st
  launch_all remote local (l ∷ ls) st = launch_all remote local ls (run b l.request remote local st)

  abbrev pub is_idle : HttpSession b (Handler b) (Server b) → Bool
  is_idle s = elim s.reading [ [] ↦ elim s.writing [ [] ↦ true | _ ∷ _ ↦ false ] | _ ∷ _ ↦ false ]

  -- The end of a handler: a session with nothing in flight is destroyed.
  unfoldable pub settle : ℕ → Connection → HttpSession b (Handler b) (Server b) → Program → Program
  unfolding launch_all
  settle k c s p = record p {
    connections =
        if is_idle s
        then erase k p.connections
        else assign k (record c { session = record s { launched = [] } }) p.connections;
    server = launch_all c.remote s.local_endpoint s.launched s.app;
  }

  unfoldable pub http_done : ℕ → HttpFlight.Event b → Program → Result Program
  unfolding HttpFlight.http_handler settle
  http_done k e p = elim (find k p.connections) [
    | none ↦ ok p
    | some c ↦ do
      s ← HttpFlight.http_handler b e (record c.session { app = p.server })
      ok (settle k c s p)
  ]

  unfoldable pub ws_done : Sockets.Event b → Program → Result Program
  unfolding Sockets.step
  ws_done e p = do st ← Sockets.step b e p.server; ok (record p { server = st })

  unfoldable pub timer_done : ℕ → Program → Result Program
  unfolding fire
  timer_done k p = do st ← fire b k p.server; ok (record p { server = st })

  -- What completes: an accept, an operation of the HTTP session with this number, one of a websocket session, or
  -- the timer at this place.
  pub data Completion : Type 0 where
    accept_done : Option b.Error → Endpoint × Endpoint → Completion
    http : ℕ → HttpFlight.Event b → Completion
    socket : Sockets.Event b → Completion
    timer : ℕ → Completion

  module _ (ac : Acceptors b Endpoint) (routes : Option (Routes b)) where
    abbrev pub running :
        (Program → Result Program) → Listener b ac Program → Result (Listener b ac Program)
    running handler l =
        if l.stopped then ok l else (handler l.app >>= λ p. ok (record l { app = p }))

    unfoldable pub step : Completion → Listener b ac Program → Result (Listener b ac Program)
    unfolding complete on_accept http_done ws_done timer_done
    step (accept_done ec ends) l = ok (complete b ac (on_accept routes) l (ec, ends))
    step (http k e) l = running (http_done k e) l
    step (socket e) l = running (ws_done e) l
    step (timer k) l = running (timer_done k) l

    unfoldable pub run_all :
        List Completion → Listener b ac Program → Result (Listener b ac Program)
    unfolding step
    run_all [] l = ok l
    run_all (c ∷ cs) l = do l' ← step c l; run_all cs l'
