-- ===== src/Apps/Program/Tame.antt =====
-- What a server needs of the HTTP callbacks that it registers, and that the routes of apps/simple_game/beast.cpp and
-- of apps/simple_server/tcp_listener.cpp have it.
use the_game.Base.{
  ◌≡◌, refl, sym, subst, ap, ◌∙◌, ◌>>=◌, ◌⊎◌, inl, inr, List, [], ◌∷◌, Option, none, some, Text,
  codes, Result, ok, list_eq, nat_eq, ◌==◌, ◌&&◌, Bool-cases, some_injective, ok_injective,
}
use the_game.Networking.Boost.{Boost}
use the_game.Networking.Http.Method.{HttpMethod, get, post, method_eq}
use the_game.Networking.Http.Query.{Params}
use the_game.Networking.Http.Session.{Callback}
use the_game.Networking.Routes.{Builder, build, get_callback}
use the_game.Networking.Routes.Lookup.{Registration, websocket, build-Answers}
use the_game.Apps.Connections.{Server, game_handler}
use the_game.Apps.Connections.Continuing.{Continues, same-Continues}
use the_game.Apps.SimpleGame.{get_test, set_state}
use the_game.Apps.SimpleGame.Ready.{IsReady}
use the_game.Apps.SimpleGame.Delivery.{set_state_result, set_state-Continues}
use the_game.Apps.Listeners.{Routes, Handler, game_routes, build_route_manager}
use the_game.Apps.Listeners.Serving.{game_callback, game_routes_lem}

module _ (b : Boost) where
  -- A callback that returns when the server is ready, leaves it ready, opens no session and leaves the
  -- map of contexts as it was.
  abbrev pub IsTameCallback : Callback b (Server b) → Type 0
  IsTameCallback callback =
      (req : b.Request) (params : Option Params) (res : b.Response) (st : Server b)
      → IsReady b st
      → (res' : b.Response) × (st' : Server b) × (callback req params res st ≡ ok (res', st'))
        × IsReady b st'
        × Continues b st st'

  -- Every callback that the routes answer with is so.
  abbrev pub IsTame : Routes b → Type 0
  IsTame rm =
      (m : HttpMethod) (p : Text) (callback : Callback b (Server b))
      → get_callback rm m p ≡ some callback
      → IsTameCallback callback

  get_test-IsTame : IsTameCallback (get_test b)
  unfolding get_test
  get_test-IsTame req params res st r = (_, st, refl, r, same-Continues b st st refl refl refl)

  set_state-IsTame : IsTameCallback (set_state b)
  set_state-IsTame req params res st r =
      let (st', ran, d) = set_state_result b req params res st r in
      (_, st', ran, d.ready, set_state-Continues b params req st d)

  game_callback_cases :
      (m : HttpMethod) (p : Text) (callback : Callback b (Server b))
      → game_callback b m p ≡ some callback
      → (callback ≡ get_test b) ⊎ (callback ≡ set_state b)
  game_callback_cases m p callback h = elim (Bool-cases ((get == m) && (codes "/test" == p))) [
    | inl test ↦ inl (some_injective (sym h ∙ rw test refl))
    | inr other ↦ elim (Bool-cases ((post == m) && (codes "/test/set_state" == p))) [
      | inl test ↦ inr (some_injective (sym h ∙ rw (other, test) refl))
      | inr neither ↦ absurd (none_some (sym (rw (other, neither) refl) ∙ h))
    ]
  ]
    where
      none_some :
          {x : Callback b (Server b)} → ◌≡◌ {A = Option (Callback b (Server b))} none (some x) → ⊥
      none_some e = cc

  pub game_routes-IsTame : (rm : Routes b) → game_routes b ≡ ok (some rm) → IsTame rm
  game_routes-IsTame rm made m p callback found =
      let (rm', made', answers) = game_routes_lem b in
      let same : rm ≡ rm' = some_injective (ok_injective (sym made ∙ made')) in
      let answer : game_callback b m p ≡ some callback =
        sym (answers m p).0 ∙ ap (λ r. get_callback r m p) (sym same) ∙ found in
      elim (game_callback_cases m p callback answer) [
        | inl e ↦ subst IsTameCallback (sym e) get_test-IsTame
        | inr e ↦ subst IsTameCallback (sym e) set_state-IsTame
      ]

  abbrev server_registrations : List (Registration (Callback b (Server b)) (Handler b))
  server_registrations = websocket (codes "/") (game_handler b) ∷ []

  -- The simple server has no callbacks.
  pub build_route_manager-IsTame :
      (rm : Routes b) → build_route_manager b ≡ ok (some rm) → IsTame rm
  unfolding build_route_manager
  build_route_manager-IsTame rm made m p callback found =
      let (made_by, rm', ran, built, answers, _) = build-Answers server_registrations in
      let shaped : build_route_manager b ≡ ok (build made_by).0 =
        ap
          (λ (r : Result (Builder (Callback b (Server b)) (Handler b))).
            r >>= (λ x. ok (build x).0))
          ran in
      let same : rm ≡ rm' = some_injective (ok_injective (sym made ∙ shaped ∙ ap ok built)) in
      absurd (cc (sym found ∙ ap (λ r. get_callback r m p) same ∙ answers.callback m p))
