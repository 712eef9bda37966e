-- ===== src/Apps/Program/Informing.antt =====
-- Whom a request to set the state of the simple game reaches, in the whole server.
use the_game.Base.{
  ℕ, ◌≤◌, ◌≡◌, refl, sym, ◌∙◌, ap, inl, false, List, [], ◌∷◌, ◌++◌, some, codes, nat_beq_iff, find,
  find-assign, assign, nat_eq, list_eq, ok, arith, some_injective, ok_injective, length,
}
use the_game.Networking.Boost.{Boost, Endpoint}
use the_game.Networking.NetUtils.{Acceptors}
use the_game.Networking.Listener.{Listener, make_listener, start}
use the_game.Networking.Http.Method.{post, method_eq, method_of_verb}
use the_game.Networking.Http.Query.{parse_query}
use the_game.Networking.Http.Session.{HttpSession, ReadOp, uri_of, on_read, fresh_response}
use the_game.Networking.Http.Session.Flight as HttpFlight
use the_game.Networking.Http.Session.Replies.{replied}
use the_game.Networking.Routes.{get_callback}
use the_game.Networking.Websocket.{WsSession}
use the_game.Apps.Connections.{Server}
use the_game.Apps.Connections.Opens.{IsComplete}
use the_game.Apps.SimpleGame.{set_state, delay_of, line_feed, set_game_state}
use the_game.Apps.SimpleGame.Audience.{find-listed}
use the_game.Apps.SimpleGame.Reaching.{informed, timers_for}
use the_game.Apps.SimpleGame.Delivery.{set_state_result}
use the_game.Apps.Listeners.{Routes, Handler, game_routes}
use the_game.Apps.Listeners.Serving.{game_routes_lem}
use the_game.Apps.Program.{
  Connection, Program, launch_all, settle, http_done, Completion, http, step, run_all,
}
use the_game.Apps.Program.Fit.{IsSafe}
use the_game.Apps.Program.Runs.{AreRegular, AreFresh}
use the_game.Apps.Program.Reached.{reached, run_all-append}
use the_game.Apps.Program.Started.{new_program}

pub one_reading :
    (ops : List ReadOp) → length ops ≤ 1 → 1 ≤ length ops → (op : ReadOp) × (ops ≡ op ∷ [])
one_reading [] few some_read = absurd (omega (arith, some_read))
one_reading (op ∷ []) few some_read = (op, refl)
one_reading (op ∷ op' ∷ ops) few some_read = absurd (omega (arith, few))

-- The answer to the request.
abbrev pub setting : (b : Boost) → b.Request → b.Response
setting b request = b.set_body (codes "Setting state to: " ++ (line_feed ++ b.body request)) (
    b.set_field (codes "Content-Type") (codes "text/json; charset=utf-8")
      (fresh_response b request))

module _ (b : Boost) (rm : Routes b) (built : game_routes b ≡ ok (some rm)) where
  pub set_state_route : get_callback rm post (codes "/test/set_state") ≡ some (set_state b)
  set_state_route =
      let (rm', built', answers) = game_routes_lem b in
      let same : rm ≡ rm' = some_injective (ok_injective (sym built ∙ built')) in
      ap (λ r. get_callback r post (codes "/test/set_state")) same
      ∙ (answers post (codes "/test/set_state")).0

  module _ (k : ℕ) (c : Connection b) (p : Program b) (request : b.Request) (url : b.Url)
      (safe : IsSafe b rm p) (found : find k p.connections ≡ some c)
      (some_read : 1 ≤ length c.session.reading) (parsed : uri_of b request c.session ≡ some url)
      (plain : b.is_upgrade request ≡ false)
      (is_post : method_of_verb b.verbs (b.method request) ≡ post)
      (is_path : b.path url ≡ codes "/test/set_state") where
    abbrev read_from : HttpSession b (Handler b) (Server b)
    read_from = record c.session { reading = []; app = p.server }

    posted :
        (st : Server b)
        → set_state b request (parse_query b url) (fresh_response b request) p.server
          ≡ ok (setting b request, st)
        → http_done b k (HttpFlight.Event.read_done request) p
          ≡ ok (record p {
            connections =
                assign k
                  (record c { session = replied b read_from (setting b request) st })
                  p.connections;
            server = st;
          })
    unfolding http_done HttpFlight.http_handler on_read uri_of settle launch_all
    posted st ran =
        let ((routed, few), unlaunched, _) = safe.fit k c found in
        let (op, reads) = one_reading c.session.reading few some_read in
        ground (
          arith, found, routed, reads, unlaunched, parsed, plain, is_post, is_path, set_state_route,
          ran,
        )

    -- The program after the request: the state is set, the sessions that were open are informed, and the
    -- answer is on its way.
    record IsDone (p' : Program b) : Type 0 where
      state : p'.server.app.state ≡ b.body request
      told :
          (id : ℕ) (s : WsSession b.Request)
          → find id p.server.sessions ≡ some s
          → 1 ≤ s.reading
          → find id p'.server.sessions
            ≡ some (informed b (delay_of (parse_query b url)) (b.body request) s)
      timers :
          p'.server.app.timers
          ≡ p.server.app.timers ++ timers_for (delay_of (parse_query b url)) p.server.app.ctxs
      answered :
          (c' : Connection b) × (find k p'.connections ≡ some c')
          × (c'.session.writing ≡ c.session.writing ++ b.prepare_payload (setting b request) ∷ [])

    post-IsDone :
        IsComplete b p.server
        → (p' : Program b) × (http_done b k (HttpFlight.Event.read_done request) p ≡ ok p')
          × IsDone p'
    unfolding set_game_state
    post-IsDone complete =
        let (st, ran, d) =
          set_state_result b request (parse_query b url) (fresh_response b request) p.server
            safe.ready in
        let c' = record c { session = replied b read_from (setting b request) st } in
        (
          _,
          posted st ran,
          record {
            state = d.state;
            timers = d.timers;
            told = λ id s alive reads. ground (
              arith,
              d.sessions id s alive,
              find-listed s.ctx.uuid id p.server.app.ctxs (complete id s alive reads),
            );
            answered =
                (c', ground (arith, find-assign k k c' p.connections, nat_beq_iff k k), refl);
          },
        )

module _ (b : Boost) (ac : Acceptors b Endpoint) where
  -- A listener of the simple game is constructed and started, and completions are handled, of accepts, of
  -- operations in flight and of timers; a handshake that succeeds had a key, which the map of contexts
  -- does not have at that time, a websocket read fails only by a close frame, and a request's URI is
  -- parsed or its session has had a response before. Then some connection's read completes with a plain POST of "/test/set_state", whose URI is
  -- parsed. The run with this last completion returns; the state is the body of the request then; every
  -- websocket session that was open has been informed of it: it is sent the state, or held by a timer if
  -- the query has a "delay", and then a timer of that many seconds has been started for each entry
  -- of the map of contexts, which has every open session under its uuid; and the answer
  -- that says so is handed to a write of the connection, behind the answers before it.
  pub listener_run-Informs :
      (endpoint : Endpoint) (a : ac.Acceptor) (rm : Routes b)
      → game_routes b ≡ ok (some rm)
      → (l : Listener b ac (Program b)) → (make_listener b ac endpoint a (new_program b)).0 ≡ inl l
      → (cs : List (Completion b)) → AreRegular b ac rm cs (start b ac l)
      → AreFresh b ac rm cs (start b ac l)
      → (l1 : Listener b ac (Program b)) → run_all b ac (some rm) cs (start b ac l) ≡ ok l1
      → (k : ℕ) (c : Connection b) (request : b.Request) (url : b.Url)
      → find k l1.app.connections ≡ some c
      → 1 ≤ length c.session.reading
      → uri_of b request c.session ≡ some url
      → b.is_upgrade request ≡ false
      → method_of_verb b.verbs (b.method request) ≡ post
      → b.path url ≡ codes "/test/set_state"
      → (l2 : Listener b ac (Program b)) × (c' : Connection b) × (run_all b ac
            (some rm)
            (cs ++ http k (HttpFlight.Event.read_done request) ∷ [])
            (start b ac l)
          ≡ ok l2)
        × (l2.app.server.app.state ≡ b.body request)
        × ((id : ℕ) (s : WsSession b.Request)
            → find id l1.app.server.sessions ≡ some s
            → 1 ≤ s.reading
            → (find s.ctx.uuid l1.app.server.app.ctxs ≡ some id)
              × (find id l2.app.server.sessions
                  ≡ some (informed b (delay_of (parse_query b url)) (b.body request) s)))
        × (l2.app.server.app.timers
            ≡ l1.app.server.app.timers
              ++ timers_for (delay_of (parse_query b url)) l1.app.server.app.ctxs)
        × (find k l2.app.connections ≡ some c')
        × (c'.session.writing ≡ c.session.writing ++ b.prepare_payload (setting b request) ∷ [])
  unfolding run_all step
  listener_run-Informs endpoint a rm built l made cs regular fresh l1 ran k c request url found
        some_read parsed plain is_post is_path =
      let r = reached b ac endpoint a rm (inl built) l made cs regular l1 ran in
      let complete = r.complete fresh in
      let (p', set, is_set) =
        post-IsDone b rm built k c l1.app request url r.serving.safe found some_read parsed plain
          is_post is_path complete in
      let (c', here, answer) = is_set.answered in
      (
        record l1 { app = p' },
        c',
        run_all-append b ac (some rm) cs _ (start b ac l) l1 ran
            ∙ ground (arith, r.serving.running, set),
        is_set.state,
        (λ id s alive reads. (complete id s alive reads, is_set.told id s alive reads)),
        is_set.timers,
        here,
        answer,
      )
