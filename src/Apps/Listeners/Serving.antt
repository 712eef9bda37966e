-- ===== src/Apps/Listeners/Serving.antt =====
-- What the routes of the simple game answer, and what the sessions do that the listeners of apps/ make.
use the_game.Base.{
  ◌≡◌, refl, ap, ◌∙◌, ◌>>=◌, List, [], ◌∷◌, Option, none, some, Text, codes, Result, ok, fault,
  list_eq, nat_eq, ◌==◌, if◌then◌else◌, ◌&&◌, arith, Option-cases, inl, inr, length, null_pointer,
  empty_optional,
}
use the_game.Networking.Boost.{Boost, Endpoint}
use the_game.Networking.Http.Method.{
  HttpMethod, get, post, method_eq, verb_of_method, method_of_verb, method_of_verb_lem,
}
use the_game.Networking.Http.Session.{Callback, on_read, uri_of}
use the_game.Networking.Routes.{Builder, build, get_callback, get_ws_handler}
use the_game.Networking.Routes.Lookup.{
  Registration, route, websocket, build-Answers, first_callback,
}
use the_game.Apps.Connections.{Server, game_handler}
use the_game.Apps.SimpleGame.{get_test, set_state}
use the_game.Apps.Listeners.{Routes, Handler, game_routes, serve, main_routes}

module _ (b : Boost) where
  -- The listener of apps/simple_server/main.cpp: whatever the first request on a connection is, the
  -- session that the listener makes for it faults: on the null route manager if the request's URI is
  -- parsed, and on the response that is not there if it is not.
  pub main_serves_nothing :
      (endpoint : Endpoint) (st : Server b) (request : b.Request)
      → let s = serve b (main_routes b) endpoint st in
        (length s.reading ≡ 1)
        × (on_read b request s ≡ elim (uri_of b request s) [
          | none ↦ fault empty_optional
          | some url ↦ fault null_pointer
        ])
  unfolding serve on_read
  main_serves_nothing endpoint st request = (
    refl,
    elim (Option-cases (uri_of b request (serve b (main_routes b) endpoint st))) [
      | inl bad ↦ ground (arith, bad)
      | inr (url, parsed) ↦ ground (arith, parsed)
    ],
  )

  get_is_read : method_of_verb b.verbs b.verbs.verb_get ≡ get
  unfolding verb_of_method
  get_is_read = (method_of_verb_lem b.verbs get).0

  post_is_read : method_of_verb b.verbs b.verbs.verb_post ≡ post
  unfolding verb_of_method
  post_is_read = (method_of_verb_lem b.verbs post).0

  abbrev game_registrations : List (Registration (Callback b (Server b)) (Handler b))
  game_registrations =
      route (method_of_verb b.verbs b.verbs.verb_get) (codes "/test") (get_test b)
      ∷ route (method_of_verb b.verbs b.verbs.verb_post) (codes "/test/set_state") (set_state b)
      ∷ websocket (codes "/") (game_handler b)
      ∷ []

  -- What the table of routes comes to.
  abbrev pub game_callback : HttpMethod → Text → Option (Callback b (Server b))
  game_callback m p =
      if (get == m) && (codes "/test" == p)
      then some (get_test b)
      else if (post == m) && (codes "/test/set_state" == p)
      then some (set_state b)
      else none

  first_game_callback :
      (m : HttpMethod) (p : Text) → first_callback m p game_registrations ≡ game_callback m p
  first_game_callback m p = rw (get_is_read, post_is_read) refl

  -- The simple game answers GET "/test" and POST "/test/set_state" by their callbacks, a websocket
  -- upgrade that is a GET on "/" by the handler, and nothing else.
  pub game_routes_lem :
      (rm : Routes b) × (game_routes b ≡ ok (some rm))
      × ((m : HttpMethod) (p : Text)
          → (get_callback rm m p ≡ game_callback m p)
            × (get_ws_handler rm m p ≡ (
                if m == get
                then (if codes "/" == p then some (game_handler b) else none)
                else none)))
  unfolding game_routes
  game_routes_lem =
      let (made_by, rm, made, built, answers, _) = build-Answers game_registrations in
      let shaped : game_routes b ≡ ok (build made_by).0 =
        ap
          (λ (r : Result (Builder (Callback b (Server b)) (Handler b))).
            r >>= (λ x. ok (build x).0))
          made in
      (
        rm,
        shaped ∙ ap ok built,
        λ m p. (answers.callback m p ∙ first_game_callback m p, answers.handler m p),
      )
