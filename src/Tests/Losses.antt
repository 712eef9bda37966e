-- ===== src/Tests/Losses.antt =====
-- A player whose connection is lost.
use the_game.Base.{
  list_eq, ◌≡◌, refl, [], ◌∷◌, ◌++◌, some, codes, find, nat_eq, ok, fault, dangling_pointer,
}
use the_game.Networking.Http.Query.{parse_uri}
use the_game.Networking.Http.Method.{method_of_verb}
use the_game.Networking.Http.Session.{uri_of}
use the_game.Networking.Http.Session.Flight as HttpFlight
use the_game.Networking.Listener.{Listener, start}
use the_game.Apps.Connections.Events as Sockets
use the_game.Apps.Listeners.{serve}
use the_game.Apps.Program.{Completion, Program, http, socket, run_all}
use the_game.Apps.Program.Losing.{listener_run-dangles}
use the_game.Networking.Websocket.{owners}
use the_game.Networking.Websocket.Session.{new_session}
use the_game.Tests.Informing.{
  joining, joining-AreRegular, joining-AreFresh, joined, joined-ran, player, setter,
}
use the_game.Tests.Programs.{rm, rm-built, good_acceptors, started, started-made, post_request}
use the_game.Tests.Samples.{boost, endpoint}

abbrev lost : Completion boost
lost = socket (Sockets.Event.read_failed 0 5)

abbrev asked : Completion boost
asked = http 1 (HttpFlight.Event.read_done post_request)

listener_run-dangles_example :
    (l : Listener boost good_acceptors (Program boost)) × (run_all boost good_acceptors
        (some rm)
        (joining ++ lost ∷ [])
        (start boost good_acceptors started)
      ≡ ok l)
    × (run_all boost good_acceptors
          (some rm)
          (joining ++ lost ∷ asked ∷ [])
          (start boost good_acceptors started)
        ≡ fault dangling_pointer)
unfolding find uri_of parse_uri method_of_verb serve owners new_session
listener_run-dangles_example =
    listener_run-dangles boost good_acceptors endpoint [] rm rm-built started started-made joining
      joining-AreRegular joining-AreFresh joined joined-ran 0 player 5 refl refl refl refl 1 setter
      post_request (codes "/test/set_state") refl refl refl refl refl
