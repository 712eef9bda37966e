-- ===== src/Tests/Replies.antt =====
-- Connections that send several requests, and what they are answered.
use the_game.Base.{
  ◌>>=◌, emplace, ℕ, ◌≡◌, refl, inl, true, List, [], ◌∷◌, ◌++◌, none, some, codes, find, assign,
  erase, nat_eq, list_eq, ok, fault, arith, drop, map, empty_optional,
}
use the_game.Networking.Boost.{Status}
use the_game.Networking.Http.Query.{parse_uri, parse_query, full_path, to_string}
use the_game.Networking.Listener.{Listener}
use the_game.Networking.Http.Method.{method_of_verb}
use the_game.Networking.Http.Session.Flight as HttpFlight
use the_game.Networking.Http.Session.Flight.{Event, read_done, write_done, writes}
use the_game.Networking.Http.Session as HttpSession
use the_game.Networking.Http.Session.Order.{handle_all, AreDue, answers}
use the_game.Networking.Http.Session.InOrder.{handle_all-answers}
use the_game.Networking.Routes as RouteManagers
use the_game.Apps.SimpleGame.{set_state}
use the_game.Apps.Ports.{stoi}
use the_game.Apps.Program as Programs
use the_game.Apps.Program.{Program, Completion, accept_done, http, run_all}
use the_game.Apps.Program.Runs.{AreRegular}
use the_game.Apps.Program.Happenings.{happenings, in_flight}
use the_game.Apps.Program.Ordering.{listener_run-answers}
use the_game.Tests.Sessions.{routes, fresh, test, bad, unknown_target}
use the_game.Tests.Informing.{joining, joining-AreRegular, joined, joined-ran}
use the_game.Tests.Programs.{rm, rm-built, good_acceptors, started, started-made, post_request}
use the_game.Tests.Samples.{SampleRequest, SampleResponse, boost, endpoint, get_request}

-- A known target, an unknown one, and one that is no path, while the first write completes.
abbrev three : List (Event boost × ℕ)
three =
    (read_done test, 0)
    ∷ (read_done unknown_target, 1)
    ∷ (write_done none, 1)
    ∷ (read_done bad, 5)
    ∷ []

three-AreDue : AreDue boost three fresh
unfolding HttpFlight.http_handler HttpSession.on_read parse_uri full_path to_string
    RouteManagers.get_callback find method_of_verb
three-AreDue = (tt, (tt, (omega arith, (tt, tt))))

abbrev plain : SampleResponse
plain = record { status = Status.ok; keep_alive = true; body = [] }

abbrev missing : SampleRequest → SampleResponse
missing request = record {
  status = Status.not_found;
  keep_alive = true;
  body = codes "Unknown HTTP-target: " ++ request.target;
}

three-answers :
    answers boost endpoint (some routes) three none
    ≡ ok (plain ∷ missing unknown_target ∷ missing bad ∷ [])
unfolding answers HttpSession.fresh_response HttpSession.not_found parse_uri full_path to_string
    RouteManagers.get_callback find method_of_verb
three-answers = refl

-- Without a response before it, a target that is no path faults.
bad_first :
    answers boost endpoint (some routes) ((read_done bad, 0) ∷ []) none ≡ fault empty_optional
unfolding answers parse_uri full_path to_string
bad_first = refl

handle_all-answers_example : (handle_all boost three fresh >>= λ t. ok t.writing) ≡ (
    answers boost endpoint (some routes) three none >>= λ rs.
    ok (drop (writes boost (map (λ h. h.0) three)) ([] ++ rs)))
handle_all-answers_example = handle_all-answers boost three fresh three-AreDue

-- A third client sends two requests, and its first response is written.
abbrev busy : List (Completion boost)
busy =
    http 2 (read_done post_request)
    ∷ http 2 (read_done (get_request (codes "/else")))
    ∷ http 2 (write_done none)
    ∷ []

abbrev arriving : List (Completion boost)
arriving = accept_done none (endpoint, endpoint) ∷ busy

arriving-AreRegular : AreRegular boost good_acceptors rm arriving joined
unfolding Programs.step HttpSession.on_read HttpSession.uri_of find assign erase method_of_verb
    parse_uri RouteManagers.get_callback HttpSession.on_write parse_query emplace set_state stoi
arriving-AreRegular = (
  tt,
  (
    (_, refl, (omega arith, inl (_, refl))),
    ((_, refl, (omega arith, inl (_, refl))), ((_, refl, omega arith), tt)),
  ),
)

listener_run-answers_example :
    (l : Listener boost good_acceptors (Program boost)) × (rs : List SampleResponse) × (run_all
        boost good_acceptors
        (some rm)
        arriving
        joined
      ≡ ok l)
    × (answers boost endpoint
          (some rm)
          (happenings boost good_acceptors (some rm) 2 arriving joined)
          none
        ≡ ok rs)
    × (in_flight boost 2 l.app
        ≡ drop
            (writes boost
              (map (λ h. h.0) (happenings boost good_acceptors (some rm) 2 arriving joined)))
            rs)
listener_run-answers_example =
    listener_run-answers boost good_acceptors endpoint [] rm (inl rm-built) started started-made
      joining joining-AreRegular joined joined-ran endpoint endpoint busy arriving-AreRegular
