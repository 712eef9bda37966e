-- ===== src/Apps/Program/Fit.antt =====
-- What a whole server relies on between two handlers, and what is regular: the invariant of the
-- program of Apps/Program, and that accepting a connection and ending a handler keep it.
use the_game.Base.{
  list_tail, ◌+◌, ◌<◌, nat_beq_iff, length-append, ◌++◌, ℕ, ◌≤◌, ◌≡◌, refl, sym, subst, ap, ◌⊎◌,
  inl, inr, List, [], ◌∷◌, Option, none, some, Dict, find, assign, erase, find-assign, find-erase,
  nat_eq, nat_beq, length, Result, ok, fault, Fault, arith, Bool-cases, ok_injective,
}
use the_game.Networking.Boost.{Boost, Endpoint}
use the_game.Networking.Http.Session.{HttpSession, ReadOp, Launch, uri_of, on_read_error, on_write}
use the_game.Networking.Http.Session.Flight as HttpFlight
use the_game.Networking.Websocket.Session.{run}
use the_game.Apps.Connections.{Server}
use the_game.Apps.Connections.Continuing.{Continues, same-Continues, Continues-trans, run-Continues}
use the_game.Apps.Connections.Events as Sockets
use the_game.Apps.SimpleGame.Ready.{IsReady, step-IsReady}
use the_game.Apps.Listeners.{Routes, Handler, serve}
use the_game.Apps.Program.{
  Connection, Program, on_accept, launch_all, is_idle, settle, Completion, accept_done, http,
  socket, timer,
}

module _ (b : Boost) where
  pub launch_all-IsReady :
      (remote local : Endpoint) (ls : List (Launch b (Handler b))) (st : Server b)
      → IsReady b st
      → IsReady b (launch_all b remote local ls st)
  unfolding launch_all Sockets.step
  launch_all-IsReady remote local [] st r = r
  launch_all-IsReady remote local (l ∷ ls) st r =
      let (st', ran, r', _) =
        step-IsReady b (Sockets.Event.upgraded l.request remote local) st r tt in
      launch_all-IsReady remote local ls (run b l.request remote local st)
        (subst (IsReady b) (sym (ok_injective ran)) r')

  pub launch_all-Continues :
      (remote local : Endpoint) (ls : List (Launch b (Handler b))) (st : Server b)
      → Continues b st (launch_all b remote local ls st)
  unfolding launch_all
  launch_all-Continues remote local [] st = same-Continues b st st refl refl refl
  launch_all-Continues remote local (l ∷ ls) st =
      Continues-trans b (run-Continues b l.request remote local st)
        (launch_all-Continues remote local ls (run b l.request remote local st))

  -- The operation is in flight; the URI of a request that has been read is parsed, or the
  -- session has had a response before.
  abbrev pub IsRegularHttp : HttpFlight.Event b → HttpSession b (Handler b) (Server b) → Type 0
  IsRegularHttp (HttpFlight.Event.read_failed e) s = 1 ≤ length s.reading
  IsRegularHttp (HttpFlight.Event.read_done request) s =
      (1 ≤ length s.reading)
      × (((url : b.Url) × (uri_of b request s ≡ some url))
          ⊎ ((r : b.Response) × (s.response ≡ some r)))
  IsRegularHttp (HttpFlight.Event.write_done ec) s = 1 ≤ length s.writing

  abbrev pub IsRegular : Completion b → Program b → Type 0
  IsRegular (accept_done ec ends) p = Unit
  IsRegular (http k e) p =
      (c : Connection b) × (find k p.connections ≡ some c) × IsRegularHttp e c.session
  IsRegular (socket e) p = Sockets.IsRegular b e p.server
  IsRegular (timer k) p = Unit

  -- What a completion asks of a session is no matter of the listener's members.
  pub same_session :
      (e : HttpFlight.Event b) (s : HttpSession b (Handler b) (Server b)) (st : Server b)
      → IsRegularHttp e s
      → IsRegularHttp e (record s { app = st })
  unfolding uri_of
  same_session (HttpFlight.Event.read_failed e) s st h = h
  same_session (HttpFlight.Event.read_done request) s st h = h
  same_session (HttpFlight.Event.write_done ec) s st h = h

  pub one_done : (ops : List ReadOp) → length ops ≤ 1 → length (list_tail ops) ≤ 0
  one_done [] h = omega arith
  one_done (op ∷ ops) h = omega (arith, h)

  pub few_left : (ops : List ReadOp) (n : ℕ) → length ops ≤ n → length (list_tail ops) ≤ n
  few_left [] n h = h
  few_left (op ∷ ops) n h = omega (arith, h)

  module _ (rm : Routes b) where
    -- The session asks the listener's routes, and reads one request at most.
    abbrev pub IsFit : HttpSession b (Handler b) (Server b) → Type 0
    IsFit s = (s.route_manager ≡ some rm) × (length s.reading ≤ 1)

    -- Every session is fit between two handlers and has no launch left, and its number is taken.
    abbrev pub AreFit : ℕ → Dict ℕ (Connection b) → Type 0
    AreFit next connections =
        (k : ℕ) (c : Connection b)
        → find k connections ≡ some c
        → IsFit c.session × (c.session.launched ≡ []) × (k < next)

    erase-AreFit :
        (k next : ℕ) (m : Dict ℕ (Connection b)) → AreFit next m → AreFit next (erase k m)
    erase-AreFit k next m h j d found = h j d (ground (arith, find-erase k j m, found))

    assign-AreFit :
        (k next : ℕ) (c : Connection b) (m : Dict ℕ (Connection b))
        → IsFit c.session × (c.session.launched ≡ []) × (k < next)
        → AreFit next m
        → AreFit next (assign k c m)
    assign-AreFit k next c m new h j d found = elim (Bool-cases (nat_beq k j)) [
      | inl here ↦
          let same : c ≡ d = ground (arith, find-assign k j c m, found, here) in
          let taken : k ≡ j = (nat_beq_iff k j).0 here in
          let new_one : IsFit c.session × (c.session.launched ≡ []) × (j < next) =
            rw taken at new in
          subst (λ (x : Connection b). IsFit x.session × (x.session.launched ≡ []) × (j < next))
            same new_one
      | inr other ↦ h j d (ground (arith, find-assign k j c m, found, other))
    ]

    -- The server is ready, and so is every connection.
    pub record IsSafe (p : Program b) : Type 0 where
      pub ready : IsReady b p.server
      pub fit : AreFit p.next p.connections

    pub record IsGood (s : HttpSession b (Handler b) (Server b)) : Type 0 where
      pub ready : IsReady b s.app
      pub fit : IsFit s

    -- The handler returns, leaves a good session, and opens no websocket session.
    abbrev pub Succeeds : Server b → Result (HttpSession b (Handler b) (Server b)) → Type 0
    Succeeds st r =
        (s : HttpSession b (Handler b) (Server b)) × (r ≡ ok s) × IsGood s × Continues b st s.app

    pub called_state :
        {x y : b.Response} {v w : Server b}
        → ◌≡◌ {A = Result (b.Response × Server b)} (ok (x, v)) (ok (y, w))
        → v ≡ w
    called_state {v} e = ap state_in e
      where
        state_in : Result (b.Response × Server b) → Server b
        state_in (ok (r, w)) = w
        state_in (fault f) = v

    pub ok_fault :
        {x : b.Response × Server b} {f : Fault}
        → ◌≡◌ {A = Result (b.Response × Server b)} (ok x) (fault f)
        → ⊥
    ok_fault e = cc

    pub error_IsGood :
        (e : b.Error) (s : HttpSession b (Handler b) (Server b))
        → IsGood s
        → IsGood (on_read_error b e s)
    unfolding on_read_error
    error_IsGood e s g = elim (Bool-cases (b.is_end_of_stream e)) [
      | inl end ↦ rw end (record { ready = g.ready; fit = g.fit })
      | inr other ↦ rw other (record { ready = g.ready; fit = g.fit })
    ]

    pub on_write-IsGood :
        (ec : Option b.Error) (s : HttpSession b (Handler b) (Server b))
        → IsGood s
        → IsGood (on_write b ec s)
    unfolding on_write
    on_write-IsGood (some e) s g = record { ready = g.ready; fit = g.fit }
    on_write-IsGood none s g = elim (Bool-cases s.keep_alive) [
      | inl kept ↦ rw kept (record { ready = g.ready; fit = g.fit })
      | inr closed ↦ rw closed (record { ready = g.ready; fit = g.fit })
    ]

    pub settle-IsSafe :
        (k : ℕ) (c : Connection b) (s : HttpSession b (Handler b) (Server b)) (p : Program b)
        → k < p.next
        → IsSafe p
        → IsGood s
        → IsSafe (settle b k c s p)
    unfolding settle
    settle-IsSafe k c s p taken safe g = record {
      ready = launch_all-IsReady c.remote s.local_endpoint s.launched s.app g.ready;
      fit =
          let kept = record c { session = record s { launched = [] } } in
          elim (Bool-cases (is_idle b s)) [
            | inl idle ↦ rw idle (erase-AreFit k p.next p.connections safe.fit)
            | inr busy ↦
                rw busy (assign-AreFit k p.next kept p.connections (g.fit, refl, taken) safe.fit)
          ];
    }

    pub settle-Continues :
        (k : ℕ) (c : Connection b) (s : HttpSession b (Handler b) (Server b)) (p : Program b)
        → Continues b s.app (settle b k c s p).server
    unfolding settle
    settle-Continues k c s p = launch_all-Continues c.remote s.local_endpoint s.launched s.app

    pub on_accept-IsSafe :
        (ends : Endpoint × Endpoint) (p : Program b)
        → IsSafe p
        → IsSafe (on_accept b (some rm) ends p)
    unfolding on_accept serve
    on_accept-IsSafe (remote, local) p safe = record {
      ready = safe.ready;
      fit =
          assign-AreFit p.next (p.next + 1) _ p.connections ((refl, omega arith), refl, omega arith)
            (λ k c found.
              let (fit, none_left, taken) = safe.fit k c found in
              (fit, none_left, omega (arith, taken)));
    }

    -- The next read is started behind none.
    pub replied_fit :
        (s : HttpSession b (Handler b) (Server b)) (op : ReadOp)
        → s.route_manager ≡ some rm
        → length s.reading ≤ 0
        → (s.route_manager ≡ some rm) × (length (s.reading ++ op ∷ []) ≤ 1)
    replied_fit s op routed few = (routed, omega (arith, few, length-append s.reading (op ∷ [])))
