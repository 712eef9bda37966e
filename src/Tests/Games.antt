-- ===== src/Tests/Games.antt =====
-- The programs: listeners, websocket clients, and the two strands of a game.
use the_game.Base.{
  ◌≢◌, find, arith, ℕ, ◌^◌, ◌≡◌, refl, ◌%◌, ltb, true, false, List, [], ◌∷◌, ◌++◌, none, some, Text,
  codes, ok, fault, dangling_pointer, nat_eq, list_eq, if◌then◌else◌,
}
use the_game.Networking.Http.Query.{to_string}
use the_game.Networking.Boost.{Status}
use the_game.Apps.Connections.{Server, game_handler}
use the_game.Apps.Connections.Registry.{IsConsistent}
use the_game.Apps.Connections.Events.{step, received, step-IsConsistent}
use the_game.Base.{ltb}
use the_game.Apps.PlayerController.{send_message, sent_to, send_message_lem}
use the_game.Apps.GameSession.{is_excepted}
use the_game.Apps.SimpleGame.{set_state}
use the_game.Apps.SimpleGame.Broadcast.{all_alive, is_alive, set_state_lem}
use the_game.Apps.Listeners.{game_routes}
use the_game.Apps.Listeners.Serving.{game_routes_lem}
use the_game.Apps.Listeners.{Routes}
use the_game.Apps.Listeners.Serving.{game_callback}
use the_game.Networking.Http.Method.{HttpMethod, get, method_eq}
use the_game.Networking.Routes.{get_callback, get_ws_handler}
use the_game.Base.{◌==◌}
use the_game.Apps.Ports.{pos, main_port, main_port_lem}
use the_game.Apps.GameSession
use the_game.Apps.GameSession.{
  GameSession, Call, new_game, broadcasting, do_player, run_all, called, commanded, added, removed,
  announced, player_runs, command_runs,
}
use the_game.Apps.GameSession.Strands.{run_all_lem}
use the_game.Apps.GameSession.Table.{notices_of, commands_of, calls_of, apply_all, empty_table}
use the_game.Apps.GameSession.Draining.{Drains, drain_lem}
use the_game.Tests.Clients.{client, one_client, one_client-alive, one_client-IsConsistent}
use the_game.Tests.Samples.{boost, SampleResponse, get_request}

main_port_lem_example :
    main_port (pos 8888) (to_string 70000 ∷ [])
    ≡ (if ltb 70000 (2 ^ 31) then some (70000 % 2 ^ 16) else none)
main_port_lem_example = main_port_lem (pos 8888) 70000 []

game_routes_lem_example :
    (rm : Routes boost) × (game_routes boost ≡ ok (some rm))
    × ((m : HttpMethod) (p : Text)
        → (get_callback rm m p ≡ game_callback boost m p)
          × (get_ws_handler rm m p ≡ (
              if m == get
              then (if codes "/" == p then some (game_handler boost) else none)
              else none)))
game_routes_lem_example = game_routes_lem boost

step-IsConsistent_example :
    (st : Server boost) × (step boost (received 0 true (codes "hi")) one_client ≡ ok st)
    × IsConsistent boost st
step-IsConsistent_example =
    step-IsConsistent boost (received 0 true (codes "hi")) one_client one_client-IsConsistent
      (client, one_client-alive, omega arith)

-- The same client, but its session is gone.
abbrev lost_client : Server boost
lost_client = record one_client { sessions = [] }

set_state_lem_example :
    let post = get_request (codes "/test/set_state") in
    let res : SampleResponse = record { status = Status.ok; keep_alive = true; body = [] } in
    (all_alive boost lost_client lost_client.app.ctxs ≡ true
      → (st : Server boost) × (set_state boost post none res lost_client
          ≡ ok (record res { body = codes "Setting state to: " ++ (10 ∷ []) ++ [] }, st))
        × (st.app.state ≡ [])
        × ((id : ℕ) → is_alive boost st id ≡ is_alive boost lost_client id))
    × (all_alive boost lost_client lost_client.app.ctxs ≡ false
        → set_state boost post none res lost_client ≡ fault dangling_pointer)
set_state_lem_example =
    set_state_lem boost (get_request (codes "/test/set_state")) none
      (record { status = Status.ok; keep_alive = true; body = [] }) lost_client

send_message_lem_example :
    (st : Server boost) × (send_message client.ctx (codes "go") one_client ≡ ok st)
    × (find 0 st.sessions ≡ sent_to (codes "go") (find 0 one_client.sessions))
    × ((j : ℕ) → 0 ≢ j → find j st.sessions ≡ find j one_client.sessions)
    × (st.app ≡ one_client.app)
send_message_lem_example = send_message_lem client.ctx 0 (codes "go") one_client refl

-- A player joins, is greeted and leaves, while the strands run in between.
abbrev one_visit : List (GameSession.Event ℕ)
one_visit =
    called (added 1)
    ∷ called (announced (codes "hi") none)
    ∷ player_runs
    ∷ called (commanded 9 1)
    ∷ command_runs
    ∷ player_runs
    ∷ called (removed 1)
    ∷ command_runs
    ∷ player_runs
    ∷ command_runs
    ∷ []

abbrev visited : GameSession ℕ
visited = run_all one_visit new_game

visit_done : (visited.player_strand ≡ []) × (visited.command_strand ≡ [])
unfolding GameSession.step
visit_done = (refl, refl)

run_all_lem_example :
    let t = apply_all (calls_of one_visit) empty_table in
    (visited.players ≡ t.players)
    × (visited.sent ≡ t.sent)
    × (notices_of visited.told ≡ t.notices)
    × (commands_of visited.told ≡ t.commands)
run_all_lem_example = run_all_lem one_visit visit_done.0 visit_done.1

drain_lem_example : Drains (run_all (called (added 1) ∷ []) (new_game {Command = ℕ}))
drain_lem_example = drain_lem (run_all (called (added 1) ∷ []) new_game)
