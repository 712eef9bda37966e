-- ===== src/Networking/Http/Session/Replies.antt =====
-- What `HttpSession::OnRead` of networking/http/http_session.cpp does with a request, branch by
-- branch, as a relation between the request, the session and the outcome.
use the_game.Base.{
  ◌≡◌, sym, subst, true, false, [], ◌∷◌, ◌++◌, Option, none, some, Result, ok, fault, Fault,
  empty_optional, null_pointer, arith, Bool-cases, Option-cases, Result-cases, inl, inr,
}
use the_game.Networking.Boost.{Boost}
use the_game.Networking.Http.Method.{method_of_verb}
use the_game.Networking.Http.Query.{parse_query}
use the_game.Networking.Routes.{RouteManager, get_callback, get_ws_handler}
use the_game.Networking.Http.Session.{
  HttpSession, Callback, released, write_begun, read_begun, fresh_response, not_found, uri_of,
  on_read,
}

module _ (b : Boost) {H W : Type 0} where
  -- The session after it has handed the response `r` to a write and started the next read.
  abbrev pub replied : HttpSession b H W → b.Response → W → HttpSession b H W
  replied s r w = record s {
    keep_alive = b.keep_alive r;
    response = some (b.moved_from (b.prepare_payload r));
    writing = s.writing ++ b.prepare_payload r ∷ [];
    reading = s.reading ++ record { body_limit = 10000; expires_after = 30 } ∷ [];
    started = (s.started ++ write_begun ∷ []) ++ read_begun ∷ [];
    app = w;
  }

  -- The session after a websocket session has taken its socket.
  abbrev pub handed_over : b.Request → b.Url → H → HttpSession b H W → HttpSession b H W
  handed_over request url h s = record s {
    socket = released;
    response = some (fresh_response b request);
    launched =
        s.launched ++ record { request = request; params = parse_query b url; handler = h } ∷ [];
  }

  -- The callback and the handler that the routes have for a request.
  abbrev pub callback_for :
      b.Request → b.Url → RouteManager (Callback b W) H → Option (Callback b W)
  callback_for request url rm =
      get_callback rm (method_of_verb b.verbs (b.method request)) (b.path url)

  abbrev pub handler_for : b.Request → b.Url → RouteManager (Callback b W) H → Option H
  handler_for request url rm =
      get_ws_handler rm (method_of_verb b.verbs (b.method request)) (b.path url)

  pub data Handles (request : b.Request) (s : HttpSession b H W)
      : Result (HttpSession b H W) → Type 0 where
    called :
        {url : b.Url} {rm : RouteManager (Callback b W) H} {callback : Callback b W}
        {r : b.Response} {w : W}
        → uri_of b request s ≡ some url
        → b.is_upgrade request ≡ false
        → s.route_manager ≡ some rm
        → callback_for request url rm ≡ some callback
        → callback request (parse_query b url) (fresh_response b request) s.app ≡ ok (r, w)
        → Handles request s (ok (replied s r w))
    call_faults :
        {url : b.Url} {rm : RouteManager (Callback b W) H} {callback : Callback b W} {f : Fault}
        → uri_of b request s ≡ some url
        → b.is_upgrade request ≡ false
        → s.route_manager ≡ some rm
        → callback_for request url rm ≡ some callback
        → callback request (parse_query b url) (fresh_response b request) s.app ≡ fault f
        → Handles request s (fault f)
    upgraded :
        {url : b.Url} {rm : RouteManager (Callback b W) H} {h : H}
        → uri_of b request s ≡ some url
        → b.is_upgrade request ≡ true
        → s.route_manager ≡ some rm
        → handler_for request url rm ≡ some h
        → Handles request s (ok (handed_over request url h s))
    no_callback :
        {url : b.Url} {rm : RouteManager (Callback b W) H}
        → uri_of b request s ≡ some url
        → b.is_upgrade request ≡ false
        → s.route_manager ≡ some rm
        → callback_for request url rm ≡ none
        → Handles request s (ok (replied s (not_found b request (fresh_response b request)) s.app))
    no_handler :
        {url : b.Url} {rm : RouteManager (Callback b W) H}
        → uri_of b request s ≡ some url
        → b.is_upgrade request ≡ true
        → s.route_manager ≡ some rm
        → handler_for request url rm ≡ none
        → Handles request s (ok (replied s (not_found b request (fresh_response b request)) s.app))
    no_routes :
        {url : b.Url}
        → uri_of b request s ≡ some url
        → s.route_manager ≡ none
        → Handles request s (fault null_pointer)
    bad_uri :
        {r : b.Response}
        → uri_of b request s ≡ none
        → s.response ≡ some r
        → Handles request s (ok (replied s (not_found b request r) s.app))
    bad_uri_first :
        uri_of b request s ≡ none → s.response ≡ none → Handles request s (fault empty_optional)

  module _ (request : b.Request) (s : HttpSession b H W) where
    without_uri : uri_of b request s ≡ none → Handles request s (on_read b request s)
    unfolding on_read
    without_uri e = elim (Option-cases s.response) [
      | inl none_yet ↦ subst (Handles request s) (sym (ground arith)) (bad_uri_first e none_yet)
      | inr (r, old) ↦ subst (Handles request s) (sym (ground arith)) (bad_uri e old)
    ]

    with_upgrade :
        (url : b.Url) (rm : RouteManager (Callback b W) H)
        → uri_of b request s ≡ some url
        → s.route_manager ≡ some rm
        → b.is_upgrade request ≡ true
        → Handles request s (on_read b request s)
    unfolding on_read
    with_upgrade url rm e m up = elim (Option-cases (handler_for request url rm)) [
      | inl missing ↦ subst (Handles request s) (sym (ground arith)) (no_handler e up m missing)
      | inr (h, found) ↦ subst (Handles request s) (sym (ground arith)) (upgraded e up m found)
    ]

    with_request :
        (url : b.Url) (rm : RouteManager (Callback b W) H)
        → uri_of b request s ≡ some url
        → s.route_manager ≡ some rm
        → b.is_upgrade request ≡ false
        → Handles request s (on_read b request s)
    unfolding on_read
    with_request url rm e m plain = elim (Option-cases (callback_for request url rm)) [
      | inl missing ↦ subst (Handles request s) (sym (ground arith)) (no_callback e plain m missing)
      | inr (c, found) ↦
          elim (Result-cases (c request (parse_query b url) (fresh_response b request) s.app)) [
            | inl ((r, w), q) ↦
                subst (Handles request s) (sym (ground arith)) (called e plain m found q)
            | inr (f, q) ↦
                subst (Handles request s) (sym (ground arith)) (call_faults e plain m found q)
          ]
    ]

    with_uri :
        (url : b.Url) → uri_of b request s ≡ some url → Handles request s (on_read b request s)
    unfolding on_read
    with_uri url e = elim (Option-cases s.route_manager) [
      | inl null ↦ subst (Handles request s) (sym (ground arith)) (no_routes e null)
      | inr (rm, m) ↦ elim (Bool-cases (b.is_upgrade request)) [
        | inl up ↦ with_upgrade url rm e m up
        | inr plain ↦ with_request url rm e m plain
      ]
    ]

  -- `OnRead` with a request. Its target is parsed as a URI under ws or http. If the URI is parsed
  -- and the session has routes, an upgrade goes to the websocket handler of its method and path, with
  -- the socket and the query, and the session stops reading; any other request goes to the callback
  -- of its method and path, which fills a fresh response, or whose fault it passes on; a request that has neither is answered by
  -- a fresh response that is made a not-found one. A response is written before the next read is
  -- started. With a null route manager a parsed URI faults. A request whose URI is not parsed is
  -- answered by the previous response, moved from, made a not-found one; on a session that has had
  -- no response yet it faults.
  pub on_read-Handles :
      (request : b.Request) (s : HttpSession b H W) → Handles request s (on_read b request s)
  on_read-Handles request s = elim (Option-cases (uri_of b request s)) [
    | inl e ↦ without_uri request s e
    | inr (url, e) ↦ with_uri request s url e
  ]
