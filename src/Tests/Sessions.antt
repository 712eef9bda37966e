-- ===== src/Tests/Sessions.antt =====
-- HTTP sessions of the simple game.
use the_game.Base.{
  find, arith, ℕ, ◌+◌, ◌≡◌, refl, ◌↔◌, inr, true, false, [], ◌∷◌, ◌++◌, none, some, Text, codes,
  length, ok, fault, Fault, nat_eq, list_eq,
}
use the_game.Networking.Boost.{Status}
use the_game.Networking.Http.Method.{HttpMethod, get, method_of_verb}
use the_game.Networking.Http.Query.{parse_query, parse_uri, full_path, to_string}
use the_game.Networking.Http.Session.{
  HttpSession, read_begun, connected, Callback, make_session, run, on_read, uri_of, fresh_response,
}
use the_game.Networking.Http.Session.Replies.{replied}
use the_game.Networking.Http.Session.Flight.{
  read_done, Reach, here, next, reading, IsOrderly, IsAnswered, run-IsOrderly,
}
use the_game.Networking.Http.Session.Answers.{
  IsUnserved, CallFaults, on_read-fault_iff, on_read-unknown, two_writes_in_flight,
}
use the_game.Networking.Http.Session.Pacing.{IsPaced, run-IsPaced}
use the_game.Networking.Routes.{RouteManager, get_callback}
use the_game.Tests.Samples.{
  boost, boost-Responds, endpoint, SampleRequest, SampleResponse, get_request,
}

-- A callback that counts the requests.
abbrev pub count : Callback boost ℕ
count request params r n = ok (r, n + 1)

abbrev pub routes : RouteManager (Callback boost ℕ) ℕ
routes = record { callbacks = (get, (codes "/test", count) ∷ []) ∷ []; ws_handlers = [] }

abbrev pub fresh : HttpSession boost ℕ ℕ
fresh = record {
  socket = connected;
  local_endpoint = endpoint;
  keep_alive = false;
  response = none;
  route_manager = some routes;
  reading = record { body_limit = 10000; expires_after = 30 } ∷ [];
  writing = [];
  started = read_begun ∷ [];
  launched = [];
  logged = [];
  app = 0;
}

abbrev pub test : SampleRequest
test = get_request (codes "/test")

abbrev pub bad : SampleRequest
bad = get_request (codes "test")

abbrev pub unknown_target : SampleRequest
unknown_target = get_request (codes "/else")

on_read-fault_iff_example :
    ((f : Fault) × (on_read boost bad fresh ≡ fault f)) ↔ IsUnserved boost bad fresh
on_read-fault_iff_example = on_read-fault_iff boost bad fresh

on_read-unknown_example :
    (t : HttpSession boost ℕ ℕ) × (r : SampleResponse) × (on_read boost unknown_target fresh ≡ ok t)
    × (t.writing ≡ [] ++ r ∷ [])
    × (r.status ≡ Status.not_found)
    × (r.body ≡ codes "Unknown HTTP-target: " ++ codes "/else")
    × (r.keep_alive ≡ true)
    × (t.keep_alive ≡ true)
    × (length t.reading ≡ 1 + 1)
    × (t.app ≡ 0)
unfolding get_callback find uri_of parse_uri full_path to_string method_of_verb
on_read-unknown_example =
    on_read-unknown boost boost-Responds unknown_target fresh (codes "/else") routes refl refl
      (inr (refl, refl))

abbrev answered : HttpSession boost ℕ ℕ
answered = replied boost (record fresh { reading = [] }) (fresh_response boost test) 1

test_read : on_read boost test (record fresh { reading = [] }) ≡ ok answered
unfolding on_read fresh_response uri_of parse_uri full_path to_string get_callback find
    method_of_verb
test_read = refl

one_request :
    Reach boost
      (run boost (make_session boost endpoint (some routes) 0))
      (read_done test ∷ [])
      answered
unfolding run make_session
one_request = next here (reading refl test_read)

run-IsOrderly_example : IsOrderly boost answered × IsAnswered boost (read_done test ∷ []) answered
run-IsOrderly_example = run-IsOrderly boost endpoint (some routes) 0 one_request

run-IsPaced_example : IsPaced boost (read_done test ∷ []) answered
run-IsPaced_example = run-IsPaced boost endpoint (some routes) 0 one_request

count_only :
    (m : HttpMethod) (p : Text) (c : Callback boost ℕ)
    → get_callback routes m p ≡ some c
    → c ≡ count
unfolding get_callback find
count_only m p c h = ground arith

never_faults :
    (request : SampleRequest) (t : HttpSession boost ℕ ℕ)
    → t.route_manager ≡ some routes
    → ¬ CallFaults boost request t
never_faults request t m c =
    let same : c.rm ≡ routes = ground (arith, c.routed) in
    let is_count : c.callback ≡ count = count_only _ _ c.callback (rw same at c.found) in
    let faults : count request (parse_query boost c.url) (fresh_response boost request) t.app
        ≡ fault c.reason =
      rw is_count at c.faults in
    absurd (ground (arith, faults))

two_writes_in_flight_example :
    (t : HttpSession boost ℕ ℕ) × (q r : SampleResponse) × Reach boost fresh
      (read_done test ∷ read_done test ∷ [])
      t
    × (t.writing ≡ ([] ++ q ∷ []) ++ r ∷ [])
    × (t.keep_alive ≡ r.keep_alive)
unfolding uri_of parse_uri full_path to_string
two_writes_in_flight_example =
    two_writes_in_flight boost test test fresh (codes "/test") (codes "/test") routes
      (record { body_limit = 10000; expires_after = 30 }) refl refl refl refl refl refl never_faults
