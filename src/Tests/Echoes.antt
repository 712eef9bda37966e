-- ===== src/Tests/Echoes.antt =====
-- A client of the simple game says something.
use the_game.Base.{
  ℕ, ◌≡◌, ◌≢◌, refl, inl, true, [], ◌∷◌, ◌++◌, some, codes, find, nat_eq, ok, arith,
}
use the_game.Networking.Listener.{Listener, start}
use the_game.Networking.Websocket.{WsSession}
use the_game.Networking.Websocket.Session.{new_session}
use the_game.Apps.Connections.Events as Sockets
use the_game.Apps.Program.{run_all, Program, socket}
use the_game.Apps.Program.Echoing.{listener_run-echoes}
use the_game.Tests.Programs.{rm, rm-built, good_acceptors, started, started-made}
use the_game.Tests.Informing.{joining, joining-AreRegular, player, joined, joined-ran}
use the_game.Tests.Samples.{SampleRequest, boost, endpoint}

listener_run-echoes_example :
    (l : Listener boost good_acceptors (Program boost)) × (s : WsSession SampleRequest) × (run_all
        boost good_acceptors
        (some rm)
        (joining ++ socket (Sockets.Event.received 0 true (codes "hi")) ∷ [])
        (start boost good_acceptors started)
      ≡ ok l)
    × (find 0 l.app.server.sessions ≡ some s)
    × (s.frames ≡ [] ++ ([] ++ (codes "hi" ++ codes " UwU Kawaiiiiiiii!")) ∷ [])
    × (s.writing ≡ [] ++ ([] ++ (codes "hi" ++ codes " UwU Kawaiiiiiiii!")) ∷ [])
    × (s.buffer ≡ [])
    × (s.reading ≡ 1)
    × ((j : ℕ) → 0 ≢ j → find j l.app.server.sessions ≡ find j joined.app.server.sessions)
    × (l.app.server.app ≡ joined.app.server.app)
unfolding find new_session
listener_run-echoes_example =
    listener_run-echoes boost good_acceptors endpoint [] rm (inl rm-built) started started-made
      joining joining-AreRegular joined joined-ran 0 player true (codes "hi") refl (omega arith)
