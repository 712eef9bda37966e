-- ===== src/Networking/Http/Session/Answers.antt =====
-- Consequences of what `HttpSession::OnRead` of networking/http/http_session.cpp does: when it faults,
-- what an unknown target is told, and what happens to a client that sends requests ahead.
use the_game.Base.{
  ◌+◌, ◌≡◌, refl, ◌↔◌, ◌⊎◌, true, false, [], ◌∷◌, ◌++◌, none, some, codes, length, length-append,
  Result, ok, fault, Fault, arith, Option-cases, Result-cases, empty_optional, null_pointer, inl,
  inr,
}
use the_game.Networking.Boost.{Boost, Responds, Status}
use the_game.Networking.Http.Query.{parse_query}
use the_game.Networking.Routes.{RouteManager}
use the_game.Networking.Http.Session.{
  HttpSession, Callback, ReadOp, on_read, uri_of, not_found, fresh_response,
}
use the_game.Networking.Http.Session.Flight.{read_done, Reach, here, next, reading}
use the_game.Networking.Http.Session.Replies.{
  Handles, on_read-Handles, replied, called, call_faults, upgraded, no_callback, no_handler,
  no_routes, bad_uri, bad_uri_first, callback_for, handler_for,
}

module _ (b : Boost) where
  not_found_lem :
      (laws : Responds b) (request : b.Request)
      → let r = not_found b request (fresh_response b request) in
        (b.result (b.prepare_payload r) ≡ Status.not_found)
        × (b.response_body (b.prepare_payload r)
            ≡ codes "Unknown HTTP-target: " ++ b.target request)
        × (b.keep_alive r ≡ b.request_keep_alive request)
  unfolding not_found fresh_response
  not_found_lem laws request = (
    rw (laws.result-prepared, laws.result-body) (laws.result-set _ _),
    rw laws.body-prepared (laws.body-set _ _),
    rw (laws.keep_alive-body, laws.keep_alive-result, laws.keep_alive-field)
        (laws.keep_alive-set _ _),
  )

module _ (b : Boost) {H W : Type 0} where
  pub record CallFaults (request : b.Request) (s : HttpSession b H W) : Type 0 where
    pub url : b.Url
    pub rm : RouteManager (Callback b W) H
    pub callback : Callback b W
    pub reason : Fault
    pub parsed : uri_of b request s ≡ some url
    pub plain : b.is_upgrade request ≡ false
    pub routed : s.route_manager ≡ some rm
    pub found : callback_for b request url rm ≡ some callback
    pub faults :
        callback request (parse_query b url) (fresh_response b request) s.app ≡ fault reason

  -- No response to reuse for a URI that is not parsed, no route manager to ask, or a callback that
  -- faults itself.
  abbrev pub IsUnserved : b.Request → HttpSession b H W → Type 0
  IsUnserved request s =
      ((uri_of b request s ≡ none) × (s.response ≡ none))
      ⊎ (((url : b.Url) × (uri_of b request s ≡ some url)) × (s.route_manager ≡ none))
      ⊎ CallFaults request s

  fault_reason :
      (request : b.Request) (s : HttpSession b H W) {r : Result (HttpSession b H W)} {f : Fault}
      → Handles b request s r
      → r ≡ fault f
      → IsUnserved request s
  fault_reason request s (called e p m g c) q = cc
  fault_reason request s (call_faults {url} {rm} {callback} {f} e p m g c) q = inr (
      inr (record {
        url = url;
        rm = rm;
        callback = callback;
        reason = f;
        parsed = e;
        plain = p;
        routed = m;
        found = g;
        faults = c;
      }))
  fault_reason request s (upgraded e p m g) q = cc
  fault_reason request s (no_callback e p m g) q = cc
  fault_reason request s (no_handler e p m g) q = cc
  fault_reason request s (no_routes {url} e m) q = inr (inl ((url, e), m))
  fault_reason request s (bad_uri e old) q = cc
  fault_reason request s (bad_uri_first e old) q = inl (e, old)

  unserved_faults :
      (request : b.Request) (s : HttpSession b H W)
      → IsUnserved request s
      → (f : Fault) × (on_read b request s ≡ fault f)
  unfolding on_read
  unserved_faults request s (inl (e, old)) = (empty_optional, ground arith)
  unserved_faults request s (inr (inl ((url, e), m))) = (null_pointer, ground arith)
  unserved_faults request s (inr (inr c)) =
      (c.reason, ground (arith, c.parsed, c.plain, c.routed, c.found, c.faults))

  -- `OnRead` of a request faults exactly when its URI is not parsed and the session has had no
  -- response yet, or the URI is parsed and the route manager is null, or the request is no upgrade and
  -- the callback that the routes have for it faults.
  pub on_read-fault_iff :
      (request : b.Request) (s : HttpSession b H W)
      → ((f : Fault) × (on_read b request s ≡ fault f)) ↔ IsUnserved request s
  on_read-fault_iff request s = (
    (λ (f, q). fault_reason request s (on_read-Handles b request s) q),
    unserved_faults request s,
  )

  -- The routes have nothing of the request's kind for its method and path.
  abbrev pub IsUnknown : b.Request → b.Url → RouteManager (Callback b W) H → Type 0
  IsUnknown request url rm =
      ((b.is_upgrade request ≡ true) × (handler_for b request url rm ≡ none))
      ⊎ ((b.is_upgrade request ≡ false) × (callback_for b request url rm ≡ none))

  -- A request whose URI is parsed, and for which the routes have no handler (if it is an upgrade) or
  -- no callback (if not), is answered by a response with the status not-found, a body that names the
  -- target as it was sent, and the request's keep-alive, behind the responses in flight; the next
  -- read is started and the application's state is as it was.
  pub on_read-unknown :
      (laws : Responds b) (request : b.Request) (s : HttpSession b H W) (url : b.Url)
      (rm : RouteManager (Callback b W) H)
      → uri_of b request s ≡ some url
      → s.route_manager ≡ some rm
      → IsUnknown request url rm
      → (t : HttpSession b H W) × (r : b.Response) × (on_read b request s ≡ ok t)
        × (t.writing ≡ s.writing ++ r ∷ [])
        × (b.result r ≡ Status.not_found)
        × (b.response_body r ≡ codes "Unknown HTTP-target: " ++ b.target request)
        × (b.keep_alive r ≡ b.request_keep_alive request)
        × (t.keep_alive ≡ b.request_keep_alive request)
        × (length t.reading ≡ length s.reading + 1)
        × (t.app ≡ s.app)
  unfolding on_read
  on_read-unknown laws request s url rm e m unknown =
      let r = not_found b request (fresh_response b request) in
      let (is_missing, names_target, kept_alive) = not_found_lem b laws request in
      (
        replied b s r s.app,
        b.prepare_payload r,
        ground arith,
        refl,
        is_missing,
        names_target,
        rw laws.keep_alive-prepared kept_alive,
        kept_alive,
        length-append s.reading _,
        refl,
      )

  plain_replied :
      (request : b.Request) (s : HttpSession b H W) (url : b.Url)
      (rm : RouteManager (Callback b W) H)
      → uri_of b request s ≡ some url
      → s.route_manager ≡ some rm
      → b.is_upgrade request ≡ false
      → ¬ CallFaults request s
      → (r : b.Response) × (w : W) × (on_read b request s ≡ ok (replied b s r w))
  unfolding on_read
  plain_replied request s url rm e m plain safe =
      elim (Option-cases (callback_for b request url rm)) [
        | inl missing ↦ (not_found b request (fresh_response b request), s.app, ground arith)
        | inr (callback, found) ↦
            elim (Result-cases
              (callback request (parse_query b url) (fresh_response b request) s.app)) [
                | inl ((r, w), q) ↦ (r, w, ground arith)
                | inr (f, q) ↦ absurd (
                    safe (record {
                      url = url;
                      rm = rm;
                      callback = callback;
                      reason = f;
                      parsed = e;
                      plain = plain;
                      routed = m;
                      found = found;
                      faults = q;
                    }))
              ]
      ]

  -- A session has one read in flight, and routes whose callbacks do not fault. Two requests that are
  -- no upgrades and whose URIs are parsed arrive one after the other, before any write completes:
  -- both responses are then in flight at once, in order, and `keep_alive_` is that of the second.
  pub two_writes_in_flight :
      (first second : b.Request) (s : HttpSession b H W) (u v : b.Url)
      (rm : RouteManager (Callback b W) H) (op : ReadOp)
      → s.reading ≡ op ∷ []
      → uri_of b first s ≡ some u
      → uri_of b second s ≡ some v
      → s.route_manager ≡ some rm
      → b.is_upgrade first ≡ false
      → b.is_upgrade second ≡ false
      → ((request : b.Request) (t : HttpSession b H W)
          → t.route_manager ≡ some rm
          → ¬ CallFaults request t)
      → (t : HttpSession b H W) × (q r : b.Response) × Reach b s
          (read_done second ∷ read_done first ∷ [])
          t
        × (t.writing ≡ (s.writing ++ b.prepare_payload q ∷ []) ++ b.prepare_payload r ∷ [])
        × (t.keep_alive ≡ b.keep_alive r)
  unfolding uri_of
  two_writes_in_flight first second s u v rm op busy e f m p q safe =
      let s0 = record s { reading = [] } in
      let (r1, w1, made1) = plain_replied first s0 u rm e m p (safe first s0 m) in
      let s1 = record (replied b s0 r1 w1) { reading = [] } in
      let (r2, w2, made2) = plain_replied second s1 v rm f m q (safe second s1 m) in
      (
        replied b s1 r2 w2,
        r1,
        r2,
        next (next here (reading busy made1)) (reading refl made2),
        refl,
        refl,
      )
