-- ===== src/Tests/ServerMains.antt =====
-- The server of apps/simple_server/main.cpp at concrete inputs.
use the_game.Base.{
  ℕ, ◌≡◌, ◌⊎◌, refl, true, false, List, [], ◌∷◌, none, codes, find, assign, erase, nat_eq, ok,
  fault, Fault, arith,
}
use the_game.Networking.NetUtils.{initialize_acceptor}
use the_game.Networking.Http.Session as HttpSession
use the_game.Networking.Http.Session.Flight.{read_done, read_failed}
use the_game.Networking.Listener.{Listener}
use the_game.Networking.Http.Query.{parse_uri, full_path, to_string}
use the_game.Apps.Listeners.{serve}
use the_game.Apps.Program as Programs
use the_game.Apps.Program.{Program, Completion, accept_done, http, run_all}
use the_game.Apps.Program.Happenings.{in_flight}
use the_game.Apps.Program.Main.{server_main, serves}
use the_game.Apps.Program.Started.{new_server}
use the_game.Apps.Program.Unserved.{has_request, IsNullAccess}
use the_game.Apps.Program.ServerMain.{ArePending, server_run_lem}
use the_game.Tests.Programs.{good_acceptors, started, any_address}
use the_game.Tests.Samples.{boost, endpoint, get_request}

-- What `main` runs.
abbrev running : Listener boost good_acceptors (Program boost)
running = record started { accepting = 1 }

main-running : server_main boost good_acceptors any_address [] [] ≡ serves none running
unfolding server_main initialize_acceptor
main-running = refl

-- Two clients connect; the first goes away, the second sends a request.
abbrev arriving : List (Completion boost)
arriving =
    accept_done none (endpoint, endpoint)
    ∷ accept_done none (endpoint, endpoint)
    ∷ http 0 (read_failed 2)
    ∷ http 1 (read_done (get_request (codes "/")))
    ∷ []

arriving-ArePending : ArePending boost good_acceptors arriving running
unfolding Programs.step find assign erase HttpSession.on_read parse_uri full_path to_string serve
arriving-ArePending = (tt, (tt, ((_, refl, omega arith), ((_, refl, omega arith), tt))))

server_run_lem_example :
    ((has_request boost arriving ≡ false)
      × (l : Listener boost good_acceptors (Program boost)) × (run_all boost good_acceptors none
            arriving running
          ≡ ok l)
      × (l.app.server ≡ new_server boost)
      × ((k : ℕ) → in_flight boost k l.app ≡ []))
    ⊎ ((has_request boost arriving ≡ true)
        × (f : Fault) × (run_all boost good_acceptors none arriving running ≡ fault f)
        × IsNullAccess boost f)
server_run_lem_example =
    server_run_lem boost good_acceptors any_address [] [] running main-running arriving
      arriving-ArePending
