-- ===== src/Tests/Network.antt =====
-- The networking library without sessions.
use the_game.Base.{
  ℕ, ◌≡◌, refl, ◌≢◌, ◌↔◌, true, false, List, [], ◌∷◌, ◌++◌, Option, none, some, Text, codes, find,
  ok, fault, null_pointer, nat_eq, list_eq,
}
use the_game.Networking.Http.Method.{
  HttpMethod, unknown, get, post, method_of_verb, verb_of_method, method_of_verb_lem,
}
use the_game.Networking.Http.Query.{Params, parse_query, first_value, parse_query_lem}
use the_game.Networking.NetUtils.{
  Runs, acceptor_calls, initialize_acceptor, initialize_acceptor-Runs,
}
use the_game.Networking.Listener.{Listener, start, stop, complete_all}
use the_game.Networking.Listener.Loop.{served, failures, accept_loop}
use the_game.Networking.Routes.{RouteManager, Builder, new_builder, build}
use the_game.Networking.Routes.Lookup.{
  Registration, route, websocket, register, register_all, Answers, build-Answers,
}
use the_game.Networking.Websocket.{WsSession}
use the_game.Networking.Websocket.Session.{new_session}
use the_game.Networking.Websocket.Sending.{IsQuiet}
use the_game.Networking.Websocket.Interleaving.{
  WriteEvent, sends, completes, messages, write_all, SendsAlone, write_all-frames_iff,
}
use the_game.Tests.Samples.{verbs, boost, acceptors, endpoint, SampleRequest, upgrade_request}

method_of_verb_lem_example :
    (method_of_verb verbs (verb_of_method verbs post) ≡ post)
    × ((v : HttpMethod)
        → post ≢ unknown
        → (method_of_verb verbs v ≡ post) ↔ (v ≡ verb_of_method verbs post))
method_of_verb_lem_example = method_of_verb_lem verbs post

parse_query_lem_example :
    ((parse_query boost (codes "/x") ≡ none) ↔ (true ≡ false))
    × ((params : Params)
        → parse_query boost (codes "/x") ≡ some params
        → (find [] params ≡ none)
          × ((k : Text)
              → k ≢ []
              → find k params ≡ first_value k (boost.encoded_params (codes "/x"))))
parse_query_lem_example = parse_query_lem boost (codes "/x")

initialize_acceptor-Runs_example :
    Runs boost acceptors
      (acceptor_calls boost acceptors endpoint)
      []
      (initialize_acceptor boost acceptors endpoint [])
initialize_acceptor-Runs_example = initialize_acceptor-Runs boost acceptors endpoint []

abbrev idle_listener : Listener boost acceptors (List ℕ)
idle_listener = record { acceptor = []; accepting = 0; stopped = false; app = []; logged = [] }

abbrev push : ℕ → List ℕ → List ℕ
push n ns = n ∷ ns

abbrev two_accepts : List (Option ℕ × ℕ)
two_accepts = (none, 5) ∷ (some 7, 0) ∷ []

accept_loop_example :
    let m = complete_all boost acceptors push (start boost acceptors idle_listener) two_accepts in
    (m ≡ record idle_listener {
      accepting = 1;
      app = served boost acceptors push two_accepts [];
      logged = [] ++ failures boost acceptors push two_accepts;
    })
    × (complete_all boost acceptors push (stop boost acceptors m) two_accepts
        ≡ stop boost acceptors m)
accept_loop_example =
    accept_loop boost acceptors push idle_listener two_accepts two_accepts refl refl

abbrev two_routes : List (Registration ℕ ℕ)
two_routes = route get (codes "/a") 1 ∷ route get (codes "/a") 2 ∷ websocket (codes "/") 3 ∷ []

build-Answers_example :
    (b : Builder ℕ ℕ) × (rm : RouteManager ℕ ℕ) × (register_all two_routes new_builder ≡ ok b)
    × ((build b).0 ≡ some rm)
    × Answers two_routes rm
    × ((r : Registration ℕ ℕ) → register r (build b).1 ≡ fault null_pointer)
build-Answers_example = build-Answers two_routes

abbrev quiet : WsSession SampleRequest
quiet = record (new_session boost (upgrade_request (codes "/")) endpoint endpoint) { accepting = 0 }

quiet-IsQuiet : IsQuiet quiet
unfolding new_session
quiet-IsQuiet = record { idle = refl; empty = refl }

-- The second message is sent after the first has been written, the third while the second is written.
abbrev three_sends : List WriteEvent
three_sends = sends (codes "a") ∷ completes ∷ sends (codes "b") ∷ sends (codes "c") ∷ []

write_all-frames_iff_example :
    ((write_all three_sends quiet).frames ≡ quiet.frames ++ messages three_sends)
    ↔ SendsAlone three_sends quiet
write_all-frames_iff_example =
    write_all-frames_iff three_sends quiet quiet-IsQuiet ((λ e. cc), ((λ e. cc), ((λ e. cc), tt)))

three_sends-frames : (write_all three_sends quiet).frames ≡ codes "a" ∷ codes "b" ∷ codes "bc" ∷ []
unfolding write_all new_session
three_sends-frames = refl
