-- ===== src/Tests/Informing.antt =====
-- A client that plays, and one that sets the state.
use the_game.Base.{
  emplace, ◌≢◌, ◌-◌, ℕ, ◌≤◌, ◌≡◌, refl, inl, true, List, [], ◌∷◌, ◌++◌, none, some, codes, find,
  assign, erase, nat_eq, list_eq, ok, arith,
}
use the_game.Networking.Http.Query.{parse_uri, parse_query}
use the_game.Networking.Listener.{Listener, start}
use the_game.Networking.Http.Method.{method_of_verb}
use the_game.Networking.Http.Session.Flight as HttpFlight
use the_game.Networking.Http.Session as HttpSession
use the_game.Networking.Routes as RouteManagers
use the_game.Networking.Websocket.{WsSession}
use the_game.Networking.Websocket.Session as WsSessions
use the_game.Networking.Websocket.Session.{new_session}
use the_game.Apps.Connections.{on_connect}
use the_game.Apps.Connections.Changes.{change_of}
use the_game.Apps.Connections.Events as Sockets
use the_game.Apps.SimpleGame.{delay_of, set_state, timer_at, without}
use the_game.Networking.Http.Session.Replies.{replied}
use the_game.Apps.Connections.{Server}
use the_game.Apps.Program.Waking.{listener_run-fires}
use the_game.Apps.Ports.{pos, stoi}
use the_game.Apps.SimpleGame.Reaching.{informed, timers_for}
use the_game.Apps.Program as Programs
use the_game.Apps.Listeners.{serve}
use the_game.Apps.Program.Started.{new_server}
use the_game.Apps.Program.{
  run_all, Program, Connection, Completion, accept_done, http, socket, timer,
}
use the_game.Apps.Program.Runs.{AreRegular, AreFresh}
use the_game.Apps.Program.Informing.{setting, listener_run-Informs}
use the_game.Tests.Programs.{rm, rm-built, good_acceptors, started, started-made, post_request}
use the_game.Tests.Samples.{SampleRequest, boost, endpoint, upgrade_request}

-- A client connects, upgrades and completes its handshake, and a second one connects.
abbrev pub joining : List (Completion boost)
joining =
    accept_done none (endpoint, endpoint)
    ∷ http 0 (HttpFlight.Event.read_done (upgrade_request (codes "/")))
    ∷ accept_done none (endpoint, endpoint)
    ∷ socket (Sockets.Event.accepted 0 none)
    ∷ []

pub joining-AreRegular :
    AreRegular boost good_acceptors rm joining (start boost good_acceptors started)
unfolding start Programs.step HttpSession.on_read HttpSession.uri_of find assign erase
    method_of_verb Sockets.step parse_uri RouteManagers.get_ws_handler WsSessions.on_accept
    WsSessions.read on_connect new_session parse_query
joining-AreRegular =
    (tt, ((_, refl, (omega arith, inl (_, refl))), (tt, ((_, refl, omega arith, (_, refl)), tt))))

pub joining-AreFresh : AreFresh boost good_acceptors rm joining (start boost good_acceptors started)
unfolding start Programs.step HttpSession.on_read HttpSession.uri_of find assign erase
    method_of_verb Sockets.step parse_uri RouteManagers.get_ws_handler WsSessions.on_accept
    WsSessions.read on_connect new_session parse_query change_of
joining-AreFresh = (tt, (tt, (tt, (refl, tt))))

abbrev waiting : WsSession SampleRequest
waiting = new_session boost (upgrade_request (codes "/")) endpoint endpoint

abbrev pub player : WsSession SampleRequest
player = record waiting {
  ctx = record waiting.ctx { ws_session = some 0; uuid = codes "key" };
  accepting = 0;
  is_open = true;
  reading = 1;
}

abbrev pub setter : Connection boost
setter = record {
  remote = endpoint;
  session =
      serve boost (some rm) endpoint
        (record (new_server boost) { next_id = 1; sessions = (0, waiting) ∷ [] });
}

abbrev pub joined : Listener boost good_acceptors (Program boost)
joined = record started {
  accepting = 1;
  app = record {
    connections = (1, setter) ∷ [];
    next = 2;
    server = record {
      next_id = 1;
      sessions = (0, player) ∷ [];
      logged = [];
      close_frames = [];
      app = record { ctxs = (codes "key", 0) ∷ []; state = []; timers = [] };
    };
  };
}

pub joined-ran :
    run_all boost good_acceptors (some rm) joining (start boost good_acceptors started) ≡ ok joined
unfolding run_all start HttpSession.on_read HttpSession.uri_of find assign erase method_of_verb
    parse_uri RouteManagers.get_ws_handler WsSessions.on_accept WsSessions.read on_connect
    new_session parse_query serve
joined-ran = refl

listener_run-Informs_example :
    (l : Listener boost good_acceptors (Program boost)) × (c : Connection boost) × (run_all boost
        good_acceptors
        (some rm)
        (joining ++ http 1 (HttpFlight.Event.read_done post_request) ∷ [])
        (start boost good_acceptors started)
      ≡ ok l)
    × (l.app.server.app.state ≡ codes "new")
    × ((id : ℕ) (s : WsSession SampleRequest)
        → find id joined.app.server.sessions ≡ some s
        → 1 ≤ s.reading
        → (find s.ctx.uuid joined.app.server.app.ctxs ≡ some id)
          × (find id l.app.server.sessions
              ≡ some (
                  informed boost
                    (delay_of (parse_query boost (codes "/test/set_state")))
                    (codes "new")
                    s)))
    × (l.app.server.app.timers
        ≡ []
          ++ timers_for
              (delay_of (parse_query boost (codes "/test/set_state")))
              ((codes "key", 0) ∷ []))
    × (find 1 l.app.connections ≡ some c)
    × (c.session.writing ≡ setter.session.writing ++ setting boost post_request ∷ [])
unfolding find HttpSession.uri_of parse_uri method_of_verb serve
listener_run-Informs_example =
    listener_run-Informs boost good_acceptors endpoint [] rm rm-built started started-made joining
      joining-AreRegular joining-AreFresh joined joined-ran 1 setter post_request
      (codes "/test/set_state") refl (omega arith) refl refl refl refl

-- The state has been set, with a delay of five seconds.
abbrev waiting_server : Server boost
waiting_server = record {
  next_id = 1;
  sessions = (0, record player { held = 1 }) ∷ [];
  logged = [];
  close_frames = [];
  app = record {
    ctxs = (codes "key", 0) ∷ [];
    state = codes "new";
    timers = (record { session = 0; seconds = pos 5 }) ∷ [];
  };
}

abbrev posted : Listener boost good_acceptors (Program boost)
posted = record joined {
  app = record {
    connections =
        (
          1,
          record setter {
            session =
                replied boost (record setter.session { reading = [] }) (setting boost post_request)
                  waiting_server;
          },
        )
        ∷ [];
    next = 2;
    server = waiting_server;
  };
}

abbrev posting : List (Completion boost)
posting = joining ++ http 1 (HttpFlight.Event.read_done post_request) ∷ []

posting-AreRegular : AreRegular boost good_acceptors rm posting (start boost good_acceptors started)
unfolding start Programs.step HttpSession.on_read HttpSession.uri_of find assign erase
    method_of_verb Sockets.step parse_uri RouteManagers.get_ws_handler WsSessions.on_accept
    WsSessions.read on_connect new_session parse_query set_state RouteManagers.get_callback emplace
    stoi
posting-AreRegular = (
  tt,
  (
    (_, refl, (omega arith, inl (_, refl))),
    (tt, ((_, refl, omega arith, (_, refl)), ((_, refl, (omega arith, inl (_, refl))), tt))),
  ),
)

posted-ran :
    run_all boost good_acceptors (some rm) posting (start boost good_acceptors started) ≡ ok posted
unfolding run_all start HttpSession.on_read HttpSession.uri_of find assign erase method_of_verb
    parse_uri RouteManagers.get_ws_handler WsSessions.on_accept WsSessions.read on_connect
    new_session parse_query serve set_state RouteManagers.get_callback emplace stoi
posted-ran = refl

listener_run-fires_example :
    (l : Listener boost good_acceptors (Program boost)) × (s : WsSession SampleRequest)
    × (s' : WsSession SampleRequest) × (run_all boost good_acceptors
          (some rm)
          (posting ++ timer 0 ∷ [])
          (start boost good_acceptors started)
        ≡ ok l)
    × (find 0 posted.app.server.sessions ≡ some s)
    × (find 0 l.app.server.sessions ≡ some s')
    × (s'.frames ≡ s.frames ++ (s.write_buf ++ codes "new") ∷ [])
    × (s'.held ≡ s.held - 1)
    × (l.app.server.app.timers ≡ without 0 posted.app.server.app.timers)
    × ((j : ℕ) → 0 ≢ j → find j l.app.server.sessions ≡ find j posted.app.server.sessions)
unfolding timer_at
listener_run-fires_example =
    listener_run-fires boost good_acceptors endpoint [] rm rm-built started started-made posting
      posting-AreRegular posted posted-ran 0 (record { session = 0; seconds = pos 5 }) refl
