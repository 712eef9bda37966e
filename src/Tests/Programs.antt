-- ===== src/Tests/Programs.antt =====
-- Whole servers, and what they run.
use the_game.Base.{
  ℕ, ◌≤◌, ◌≡◌, refl, inl, true, false, List, [], ◌∷◌, none, some, codes, find, assign, erase,
  emplace, nat_eq, list_eq, ok, arith,
}
use the_game.Networking.Boost.{Endpoint}
use the_game.Networking.NetUtils.{Acceptors, initialize_acceptor}
use the_game.Networking.Http.Query.{parse_uri, parse_query}
use the_game.Networking.Listener.{Listener, make_listener, start}
use the_game.Networking.Http.Method.{get, post, method_of_verb}
use the_game.Networking.Http.Session.Flight as HttpFlight
use the_game.Networking.Http.Session as HttpSession
use the_game.Networking.Routes as RouteManagers
use the_game.Networking.Websocket.Session as WsSessions
use the_game.Networking.Websocket.Session.{new_session}
use the_game.Apps.Connections.{game_handler, on_connect, on_receive, on_disconnect}
use the_game.Apps.Connections.Events as Sockets
use the_game.Apps.SimpleGame.{set_state, get_test}
use the_game.Apps.Ports.{pos, stoi}
use the_game.Apps.Listeners.{Routes, game_routes}
use the_game.Apps.Program as Programs
use the_game.Apps.Program.{
  Program, Connection, Completion, accept_done, http, socket, timer, http_done,
}
use the_game.Apps.Program.Runs.{AreRegular, IsServing}
use the_game.Apps.Program.Started.{new_program}
use the_game.Apps.Program.Main.{game_main, server_main, Starts, programs-Start, listener_run-Serves}
use the_game.Apps.Program.Closing.{listener_run-close_frames}
use the_game.Networking.Websocket.{WsSession}
use the_game.Tests.Samples.{SampleRequest, boost, acceptors, endpoint, upgrade_request}

abbrev pub any_address : ℕ → Endpoint
any_address n = record endpoint { port = n }

programs-Start_example :
    ((routes : Routes boost) × (game_routes boost ≡ ok (some routes))
      × Starts boost acceptors
          (pos 8880)
          (some routes)
          any_address
          []
          (codes "70000" ∷ [])
          (game_main boost acceptors any_address [] (codes "70000" ∷ [])))
    × Starts boost acceptors
        (pos 8888)
        none
        any_address
        []
        (codes "70000" ∷ [])
        (server_main boost acceptors any_address [] (codes "70000" ∷ []))
programs-Start_example = programs-Start boost acceptors any_address [] (codes "70000" ∷ [])

-- The routes of the simple game.
abbrev pub rm : Routes boost
rm = record {
  callbacks =
      (get, (codes "/test", get_test boost) ∷ [])
      ∷ (post, (codes "/test/set_state", set_state boost) ∷ [])
      ∷ [];
  ws_handlers = (codes "/", game_handler boost) ∷ [];
}

pub rm-built : game_routes boost ≡ ok (some rm)
unfolding game_routes RouteManagers.entry method_of_verb find emplace assign
rm-built = refl

abbrev pub good_acceptors : Acceptors boost Endpoint
good_acceptors = record acceptors { bind = λ e a. (none, 3 ∷ a) }

abbrev pub started : Listener boost good_acceptors (Program boost)
started = record {
  acceptor = 4 ∷ 3 ∷ 2 ∷ 1 ∷ [];
  accepting = 0;
  stopped = false;
  app = new_program boost;
  logged = [];
}

pub started-made :
    (make_listener boost good_acceptors endpoint [] (new_program boost)).0 ≡ inl started
unfolding make_listener initialize_acceptor
started-made = refl

abbrev pub post_request : SampleRequest
post_request = record {
  verb = post;
  target = codes "/test/set_state";
  upgrade = false;
  body = codes "new";
}

-- A client connects, upgrades, completes its handshake and sends a message, while a second one
-- connects, which then sets the state; the first gets its answer and closes its connection.
abbrev arrivals : List (Completion boost)
arrivals =
    accept_done none (endpoint, endpoint)
    ∷ http 0 (HttpFlight.Event.read_done (upgrade_request (codes "/")))
    ∷ accept_done none (endpoint, endpoint)
    ∷ socket (Sockets.Event.accepted 0 none)
    ∷ socket (Sockets.Event.received 0 true (codes "hi"))
    ∷ http 1 (HttpFlight.Event.read_done post_request)
    ∷ http 1 (HttpFlight.Event.write_done none)
    ∷ socket (Sockets.Event.sent 0 none 2)
    ∷ socket (Sockets.Event.read_failed 0 1)
    ∷ timer 0
    ∷ []

arrivals-AreRegular :
    AreRegular boost good_acceptors rm arrivals (start boost good_acceptors started)
unfolding start Programs.step HttpSession.on_read HttpSession.uri_of find assign erase
    method_of_verb Sockets.step parse_uri RouteManagers.get_ws_handler WsSessions.on_accept
    WsSessions.on_read WsSessions.read on_connect on_receive new_session set_state
    RouteManagers.get_callback WsSessions.on_write WsSessions.on_read_error HttpSession.on_write
    parse_query emplace on_disconnect stoi
arrivals-AreRegular = (
  tt,
  (
    (_, refl, (omega arith, inl (_, refl))),
    (
      tt,
      (
        (_, refl, omega arith, (_, refl)),
        (
          (_, refl, omega arith),
          (
            (_, refl, (omega arith, inl (_, refl))),
            (
              (_, refl, omega arith),
              ((_, refl, omega arith), ((_, refl, omega arith, refl), (tt, tt))),
            ),
          ),
        ),
      ),
    ),
  ),
)

listener_run-Serves_example :
    (l : Listener boost good_acceptors (Program boost)) × (Programs.run_all boost good_acceptors
        (some rm)
        arrivals
        (start boost good_acceptors started)
      ≡ ok l)
    × IsServing boost good_acceptors rm l
listener_run-Serves_example =
    listener_run-Serves boost good_acceptors endpoint [] rm (inl rm-built) started started-made
      arrivals arrivals-AreRegular

listener_run-close_frames_example :
    (l : Listener boost good_acceptors (Program boost)) × (Programs.run_all boost good_acceptors
        (some rm)
        arrivals
        (start boost good_acceptors started)
      ≡ ok l)
    × (l.app.server.close_frames ≡ [])
    × ((id : ℕ) (s : WsSession SampleRequest)
        → find id l.app.server.sessions ≡ some s
        → s.is_open ≡ true
        → 1 ≤ s.reading)
listener_run-close_frames_example =
    listener_run-close_frames boost good_acceptors endpoint [] rm (inl rm-built) started
      started-made arrivals arrivals-AreRegular
