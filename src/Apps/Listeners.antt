-- ===== src/Apps/Listeners.antt =====
-- The listeners of the programs: the routes of apps/simple_game/beast.cpp and of
-- apps/simple_server/tcp_listener.cpp, the null `route_manager_` of apps/simple_server/main.cpp, and
-- their `OnAccept`, which makes an HTTP session and runs it.
pub mod Serving
use the_game.Base.{Option, none, some, Text, codes, Result, ok, ◌>>=◌}
use the_game.Networking.Boost.{Boost, Endpoint}
use the_game.Networking.Http.Method.{HttpMethod, method_of_verb}
use the_game.Networking.Http.Session.{HttpSession, Callback, make_session, run}
use the_game.Networking.Routes.{RouteManager, Builder, new_builder, add, add_websocket, build}
use the_game.Networking.Websocket.{WsHandler}
use the_game.Apps.Connections.{Server, Game, game_handler}
use the_game.Apps.SimpleGame.{get_test, set_state}

module _ (b : Boost) where
  abbrev pub Handler : Type 0
  Handler = WsHandler b.Request b.Error Game

  abbrev pub Routes : Type 0
  Routes = RouteManager (Callback b (Server b)) Handler

  -- The chain of calls in the initialiser of `route_manager_`.
  unfoldable pub game_routes : Result (Option Routes)
  unfolding add add_websocket build
  game_routes = do
    with_get ←
        add (method_of_verb b.verbs b.verbs.verb_get) (codes "/test") (get_test b) new_builder
    with_post ←
        add (method_of_verb b.verbs b.verbs.verb_post) (codes "/test/set_state") (set_state b)
          with_get
    with_ws ← add_websocket (codes "/") (game_handler b) with_post
    ok (build with_ws).0

  -- `BuildRouteManager` of the simple server.
  unfoldable pub build_route_manager : Result (Option Routes)
  unfolding add_websocket build
  build_route_manager = do
    with_ws ← add_websocket (codes "/") (game_handler b) new_builder
    ok (build with_ws).0

  -- `OnAccept`: the session of an accepted socket, which reads its first request.
  unfoldable pub serve : Option Routes → Endpoint → Server b → HttpSession b Handler (Server b)
  unfolding make_session run
  serve routes endpoint st = run b (make_session b endpoint routes st)

  -- In apps/simple_server/main.cpp nothing sets the pointer.
  abbrev pub main_routes : Option Routes
  main_routes = none
