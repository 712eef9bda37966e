-- ===== src/Networking/Http/Session/Order.antt =====
-- The order in which an `HttpSession` (networking/http/http_session.cpp) answers, against a server
-- that takes the requests one at a time and has neither a socket nor operations in flight.
use the_game.Base.{
  ◌≤◌, List, [], ◌∷◌, ◌++◌, Option, none, some, codes, length, Result, ok, deref, ◌>>=◌,
  if◌then◌else◌, empty_optional, null_pointer, Afterwards,
}
use the_game.Networking.Boost.{Boost, Endpoint}
use the_game.Networking.Http.Query.{parse_uri, parse_query}
use the_game.Networking.Routes.{RouteManager}
use the_game.Networking.Http.Session.{HttpSession, Callback, not_found, fresh_response}
use the_game.Networking.Http.Session.Flight.{
  Event, read_failed, read_done, write_done, http_handler,
}
use the_game.Networking.Http.Session.Replies.{callback_for, handler_for}

module _ (b : Boost) where
  -- A response, or the connection is handed to a websocket session.
  pub data Answer : Type 0 where
    reply : b.Response → Answer
    hand_over : Answer

  abbrev pub sent : Answer → List b.Response
  sent (reply r) = b.prepare_payload r ∷ []
  sent hand_over = []

  -- What is left in the session's member for the next request.
  abbrev pub left_over : b.Request → Answer → b.Response
  left_over request (reply r) = b.moved_from (b.prepare_payload r)
  left_over request hand_over = fresh_response b request

module _ (b : Boost) {H W : Type 0} where
  -- The session handles one completion after the other; what it launches is taken from it.
  unfoldable pub handle_all : List (Event b × W) → HttpSession b H W → Result (HttpSession b H W)
  unfolding http_handler
  handle_all [] s = ok s
  handle_all ((e, w) ∷ es) s = do
    t ← http_handler b e (record s { app = w })
    handle_all es (record t { launched = [] })

  -- A write completes only while one is in flight.
  abbrev pub IsDue : Event b → HttpSession b H W → Type 0
  IsDue (read_failed e) s = Unit {0}
  IsDue (read_done request) s = Unit {0}
  IsDue (write_done ec) s = 1 ≤ length s.writing

  abbrev pub AreDue : List (Event b × W) → HttpSession b H W → Type 0
  AreDue [] s = Unit {0}
  AreDue ((e, w) ∷ es) s =
      IsDue e s
      × Afterwards (λ t. AreDue es (record t { launched = [] }))
          (http_handler b e (record s { app = w }))

  -- The answer to a request whose target is parsed, from the routes.
  pub answer_under : b.Request → b.Url → W → RouteManager (Callback b W) H → Result (Answer b)
  answer_under request url w rm =
      if b.is_upgrade request
      then (elim (handler_for b request url rm) [
        | none ↦ ok (reply (not_found b request (fresh_response b request)))
        | some h ↦ ok hand_over
      ])
      else (elim (callback_for b request url rm) [
        | none ↦ ok (reply (not_found b request (fresh_response b request)))
        | some callback ↦ do
          (r, w') ← callback request (parse_query b url) (fresh_response b request) w
          ok (reply r)
      ])

  module _ (local : Endpoint) (routes : Option (RouteManager (Callback b W) H)) where
    -- The answer to one request, from the routes and the response that the last answer left.
    unfoldable pub answer_to : b.Request → W → Option b.Response → Result (Answer b)
    unfolding answer_under
    answer_to request w previous =
        elim (parse_uri b (if b.is_upgrade request then codes "ws" else codes "http") local
          (b.target request)) [
            | none ↦ do r ← deref empty_optional previous; ok (reply (not_found b request r))
            | some url ↦ do rm ← deref null_pointer routes; answer_under request url w rm
          ]

    -- The answers to the requests of a list of happenings, one at a time.
    unfoldable pub answers : List (Event b × W) → Option b.Response → Result (List b.Response)
    unfolding answer_to
    answers [] previous = ok []
    answers ((read_failed e, w) ∷ es) previous = answers es previous
    answers ((read_done request, w) ∷ es) previous = do
      a ← answer_to request w previous
      rest ← answers es (some (left_over b request a))
      ok (sent b a ++ rest)
    answers ((write_done ec, w) ∷ es) previous = answers es previous
