-- ===== src/Networking/Http/Session.antt =====
-- `HttpSession` of networking/http/http_session.h and networking/http/http_session.cpp, with the
-- stream and buffer of networking/session_base.h. Each completion handler is a function on the
-- session; what it starts is in flight until its own handler runs. `H` is the type of the websocket
-- handlers, `W` the state of the application, on which the HTTP callbacks act.
pub mod Replies
pub mod Flight
pub mod Answers
pub mod Order
pub mod InOrder
pub mod Pacing
pub mod Handled
use the_game.Base.{
  ℕ, Bool, true, false, not, List, [], ◌∷◌, ◌++◌, Option, none, some, Text, codes, Result, ok,
  fault, empty_optional, null_pointer, deref, ◌>>=◌, if◌then◌else◌,
}
use the_game.Networking.Boost.{Boost, Status, Endpoint}
use the_game.Networking.Http.Method.{HttpMethod, method_of_verb}
use the_game.Networking.Http.Query.{Params, parse_uri, parse_query}
use the_game.Networking.NetUtils.{fail}
use the_game.Networking.Routes.{RouteManager, get_callback, get_ws_handler}

-- The socket: `shut` once its sending side has been shut down, `released` once a websocket session
-- has taken it over.
pub data Socket : Type 0 where
  connected shut released : Socket

-- A read in flight: the body limit of its parser, and its timeout in seconds.
pub record ReadOp : Type 0 where
  pub body_limit : ℕ
  pub expires_after : ℕ

-- What a session starts on its stream.
pub data Operation : Type 0 where
  read_begun write_begun : Operation

shut_down : Socket → Socket
shut_down connected = shut
shut_down shut = shut
shut_down released = released

module _ (b : Boost) where
  abbrev pub Callback : Type 0 → Type 0
  Callback W = b.Request → Option Params → b.Response → W → Result (b.Response × W)

  -- What a websocket session is made from.
  pub record Launch (H : Type 0) : Type 0 where
    pub request : b.Request
    pub params : Option Params
    pub handler : H

  pub record HttpSession (H W : Type 0) : Type 0 where
    pub socket : Socket
    pub local_endpoint : Endpoint
    pub keep_alive : Bool
    pub response : Option b.Response
    pub route_manager : Option (RouteManager (Callback W) H)
    -- In flight, oldest first.
    pub reading : List ReadOp
    pub writing : List b.Response
    -- Every read and write that has been started so far, oldest first.
    pub started : List Operation
    pub launched : List (Launch H)
    pub logged : List Text
    pub app : W

  unfoldable pub fresh_response : b.Request → b.Response
  fresh_response request = b.set_field (codes "Server") (codes "game-server-v0") (
      b.set_keep_alive (b.request_keep_alive request)
        (b.make_response Status.ok (b.version request)))

  unfoldable pub not_found : b.Request → b.Response → b.Response
  not_found request r =
      b.set_body (codes "Unknown HTTP-target: " ++ b.target request)
        (b.set_result Status.not_found r)

  -- Where a request goes: to a websocket session, to a callback, or nowhere.
  pub data Routed (H W : Type 0) : Type 0 where
    upgraded : HttpSession H W → Routed H W
    answered : HttpSession H W → Routed H W
    unanswered : HttpSession H W → Routed H W

  module _ {H W : Type 0} where
    -- The constructor.
    unfoldable pub make_session :
        Endpoint → Option (RouteManager (Callback W) H) → W → HttpSession H W
    make_session endpoint rm w = record {
      socket = connected;
      local_endpoint = endpoint;
      keep_alive = false;
      response = none;
      route_manager = rm;
      reading = [];
      writing = [];
      started = [];
      launched = [];
      logged = [];
      app = w;
    }

    unfoldable pub close : HttpSession H W → HttpSession H W
    unfolding shut_down
    close s = record s { socket = shut_down s.socket }

    unfoldable pub read : HttpSession H W → HttpSession H W
    read s = record s {
      reading = s.reading ++ record { body_limit = 10000; expires_after = 30 } ∷ [];
      started = s.started ++ read_begun ∷ [];
    }

    unfoldable pub run : HttpSession H W → HttpSession H W
    unfolding read
    run s = read s

    -- The response is moved into the operation.
    unfoldable pub write : HttpSession H W → Result (HttpSession H W)
    write s = do
      r ← deref empty_optional s.response
      ok (record s {
        keep_alive = b.keep_alive r;
        response = some (b.moved_from (b.prepare_payload r));
        writing = s.writing ++ b.prepare_payload r ∷ [];
        started = s.started ++ write_begun ∷ [];
      })

    unfoldable pub on_write : Option b.Error → HttpSession H W → HttpSession H W
    unfolding close
    on_write (some e) s = record s { logged = s.logged ++ fail b (some e) (codes "on write") ∷ [] }
    on_write none s = if not s.keep_alive then close s else s

    unfoldable pub uri_of : b.Request → HttpSession H W → Option b.Url
    uri_of request s =
        parse_uri b (if b.is_upgrade request then codes "ws" else codes "http") s.local_endpoint
          (b.target request)

    -- The branch for an upgrade, and the one for a plain request, under a parsed URI.
    unfoldable pub route_upgrade : b.Request → b.Url → HttpSession H W → Result (Routed H W)
    route_upgrade request url s = do
      rm ← deref null_pointer s.route_manager
      ok (elim (get_ws_handler rm (method_of_verb b.verbs (b.method request)) (b.path url)) [
        | none ↦ unanswered s
        | some h ↦ upgraded (record s {
          socket = released;
          launched =
              s.launched
              ++ record { request = request; params = parse_query b url; handler = h } ∷ [];
        })
      ])

    unfoldable pub route_request : b.Request → b.Url → HttpSession H W → Result (Routed H W)
    route_request request url s = do
      rm ← deref null_pointer s.route_manager
      elim (get_callback rm (method_of_verb b.verbs (b.method request)) (b.path url)) [
        | none ↦ ok (unanswered s)
        | some callback ↦ do
          (r, w) ← callback request (parse_query b url) (fresh_response request) s.app
          ok (answered (record s { response = some r; app = w }))
      ]

    unfoldable pub route : b.Request → HttpSession H W → Result (Routed H W)
    unfolding route_upgrade route_request uri_of fresh_response
    route request s = elim (uri_of request s) [
      | none ↦ ok (unanswered s)
      | some url ↦
          let s1 = record s { response = some (fresh_response request) } in
          if b.is_upgrade request
          then route_upgrade request url s1
          else route_request request url s1
    ]

    -- `Write` and `Read`, in this order.
    unfoldable pub write_and_read : HttpSession H W → Result (HttpSession H W)
    unfolding write read
    write_and_read s = do t ← write s; ok (read t)

    unfoldable pub finish : b.Request → Routed H W → Result (HttpSession H W)
    unfolding write_and_read not_found
    finish request (upgraded s) = ok s
    finish request (answered s) = write_and_read s
    finish request (unanswered s) = do
      r ← deref empty_optional s.response
      write_and_read (record s { response = some (not_found request r) })

    -- `OnRead`: with an error, or with the request that the parser releases.
    unfoldable pub on_read_error : b.Error → HttpSession H W → HttpSession H W
    unfolding close
    on_read_error e s =
        if b.is_end_of_stream e
        then close s
        else record s { logged = s.logged ++ fail b (some e) (codes "on read") ∷ [] }

    unfoldable pub on_read : b.Request → HttpSession H W → Result (HttpSession H W)
    unfolding route finish
    on_read request s = route request s >>= finish request
