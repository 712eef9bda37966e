-- ===== src/Apps/Program/Losing.antt =====
-- What a lost connection of a player does to the whole simple game: `WebSocketSession::OnRead` of
-- networking/websocket/websocket_session.cpp, and the callbacks of apps/simple_game/beast.cpp.
use the_game.Base.{
  ℕ, ◌≡◌, ◌∙◌, inl, false, List, [], ◌∷◌, ◌++◌, some, none, codes, find, Dict, Text, list_beq_iff,
  nat_eq, list_eq, ok, fault, dangling_pointer, arith,
}
use the_game.Networking.Boost.{Boost, Endpoint}
use the_game.Networking.NetUtils.{Acceptors}
use the_game.Networking.Listener.{Listener, make_listener, start}
use the_game.Networking.Http.Method.{post, method_of_verb}
use the_game.Networking.Http.Query.{parse_query}
use the_game.Networking.Http.Session.{uri_of, on_read, fresh_response}
use the_game.Networking.Http.Session.Flight as HttpFlight
use the_game.Networking.Websocket.{WsSession, owners}
use the_game.Apps.Connections.{Server}
use the_game.Apps.Connections.Events as Sockets
use the_game.Apps.Connections.Losing.{lost_connection_dangles}
use the_game.Apps.SimpleGame.Broadcast.{all_alive, set_state_lem}
use the_game.Apps.Listeners.{Routes, game_routes}
use the_game.Apps.Program.{
  Connection, Program, http_done, ws_done, Completion, http, socket, step, run_all,
}
use the_game.Apps.Program.Informing.{set_state_route}
use the_game.Apps.Program.Runs.{AreRegular, AreFresh}
use the_game.Apps.Program.Reached.{reached, run_all-append}
use the_game.Apps.Program.Started.{new_program}

module _ (b : Boost) where
  -- One entry that leads to nobody is enough.
  not_all_alive :
      (st : Server b) (uuid : Text) (id : ℕ) (ctxs : Dict Text ℕ)
      → find uuid ctxs ≡ some id
      → find id st.sessions ≡ none
      → all_alive b st ctxs ≡ false
  unfolding find
  not_all_alive st uuid id [] kept gone = cc
  not_all_alive st uuid id ((u, i) ∷ ctxs) kept gone =
      ground (arith, list_beq_iff u uuid, kept, gone, not_all_alive st uuid id ctxs)

  faulty_request :
      (k : ℕ) (c : Connection b) (p : Program b) (request : b.Request) (url : b.Url) (rm : Routes b)
      (uuid : Text) (id : ℕ)
      → game_routes b ≡ ok (some rm)
      → find k p.connections ≡ some c
      → c.session.route_manager ≡ some rm
      → uri_of b request c.session ≡ some url
      → b.is_upgrade request ≡ false
      → method_of_verb b.verbs (b.method request) ≡ post
      → b.path url ≡ codes "/test/set_state"
      → find uuid p.server.app.ctxs ≡ some id
      → find id p.server.sessions ≡ none
      → http_done b k (HttpFlight.Event.read_done request) p ≡ fault dangling_pointer
  unfolding http_done HttpFlight.http_handler on_read uri_of
  faulty_request k c p request url rm uuid id built found routed parsed plain is_post is_path kept
        gone =
      let dangling = not_all_alive p.server uuid id p.server.app.ctxs kept gone in
      let faults =
        (set_state_lem b request (parse_query b url) (fresh_response b request) p.server).1
          dangling in
      ground
        (arith, found, routed, parsed, plain, is_post, is_path, set_state_route b rm built, faults)

module _ (b : Boost) (ac : Acceptors b Endpoint) where
  -- A listener of the simple game is constructed and started, and any regular completions are handled,
  -- in which nobody opens a websocket session under a key that the map of contexts has. Then the read of a websocket session
  -- fails, for another reason than a close frame, such as a lost connection, and nothing but this read
  -- holds the session; and the read of some connection completes with a plain POST of "/test/set_state", whose URI is parsed.
  -- The first of the two returns, and the run with both faults: it follows the pointer to the session that is gone.
  pub listener_run-dangles :
      (endpoint : Endpoint) (a : ac.Acceptor) (rm : Routes b)
      → game_routes b ≡ ok (some rm)
      → (l : Listener b ac (Program b)) → (make_listener b ac endpoint a (new_program b)).0 ≡ inl l
      → (cs : List (Completion b)) → AreRegular b ac rm cs (start b ac l)
      → AreFresh b ac rm cs (start b ac l)
      → (l1 : Listener b ac (Program b)) → run_all b ac (some rm) cs (start b ac l) ≡ ok l1
      → (id : ℕ) (s : WsSession b.Request) (e : b.Error) → find id l1.app.server.sessions ≡ some s
      → owners s ≡ 1
      → s.reading ≡ 1
      → b.is_closed e ≡ false
      → (k : ℕ) (c : Connection b) (request : b.Request) (url : b.Url)
      → find k l1.app.connections ≡ some c
      → uri_of b request c.session ≡ some url
      → b.is_upgrade request ≡ false
      → method_of_verb b.verbs (b.method request) ≡ post
      → b.path url ≡ codes "/test/set_state"
      → let lost = socket (Sockets.Event.read_failed id e) in
        let asked = http k (HttpFlight.Event.read_done request) in
        (l2 : Listener b ac (Program b)) × (run_all b ac (some rm) (cs ++ lost ∷ []) (start b ac l)
          ≡ ok l2)
        × (run_all b ac (some rm) (cs ++ lost ∷ asked ∷ []) (start b ac l) ≡ fault dangling_pointer)
  unfolding run_all step ws_done
  listener_run-dangles endpoint a rm built l made cs regular fresh l1 ran id s e alive alone reads
        lost k c request url found parsed plain is_post is_path =
      let r = reached b ac endpoint a rm (inl built) l made cs regular l1 ran in
      let kept = r.complete fresh id s alive (omega (arith, reads)) in
      let (st, one, still, gone, _) =
        lost_connection_dangles b id s.ctx.uuid e s l1.app.server kept alive alone reads lost in
      let p = record l1.app { server = st } in
      let faults =
        faulty_request b k c p request url rm s.ctx.uuid id built found
          (r.serving.safe.fit k c found).0.0 parsed plain is_post is_path still gone in
      (
        record l1 { app = p },
        run_all-append b ac (some rm) cs _ (start b ac l) l1 ran
            ∙ ground (arith, r.serving.running, one),
        run_all-append b ac (some rm) cs _ (start b ac l) l1 ran
            ∙ ground (arith, r.serving.running, one, faults),
      )
