-- ===== src/Apps/Program/Ordering.antt =====
-- In which order a connection of a whole server is answered (apps/simple_game/beast.cpp and
-- apps/simple_server, networking/http/http_session.cpp).
use the_game.Base.{
  ◌≡◌, refl, sym, subst, ap, ◌∙◌, ◌⊎◌, false, List, [], ◌∷◌, ℕ, none, some, find-assign, nat_eq,
  nat_beq_iff, eq_refl, Result, ok, arith, Result-cases, inl, inr, ok_injective, Afterwards, drop,
  map,
}
use the_game.Networking.Boost.{Boost, Endpoint}
use the_game.Networking.NetUtils.{Acceptors}
use the_game.Networking.Listener.{Listener, make_listener, start, complete}
use the_game.Networking.Http.Session.{HttpSession}
use the_game.Networking.Http.Session.Flight.{writes}
use the_game.Networking.Http.Session.Order.{answers}
use the_game.Networking.Http.Session.Handled.{Handled, Handled-answers, nil-Handled, Handled-append}
use the_game.Apps.Connections.{Server}
use the_game.Apps.Listeners.{Routes, Handler, serve, game_routes, build_route_manager}
use the_game.Apps.Program.{
  Connection, Program, on_accept, http_done, ws_done, timer_done, Completion, accept_done, http,
  socket, timer, running, step, run_all,
}
use the_game.Apps.Program.Tame.{IsTame}
use the_game.Apps.Program.Fit.{IsRegular}
use the_game.Apps.Program.Runs.{AreRegular, IsServing, step-Serves, run_all-Serves}
use the_game.Apps.Program.Reached.{reached}
use the_game.Apps.Program.Started.{new_program, game-or-server-IsTame}
use the_game.Apps.Program.Happenings.{own, happenings, in_flight, Follows, alive, gone, Tracks}
use the_game.Apps.Program.Happenings.Following.{same-Follows, GoesOn, http-GoesOn, others-GoesOn}

module _ (b : Boost) (ac : Acceptors b Endpoint) (rm : Routes b) (tame : IsTame b rm) where
  abbrev StepGoesOn :
      ℕ → Completion b → HttpSession b (Handler b) (Server b) → Listener b ac (Program b) → Type 0
  StepGoesOn k c s l =
      (s1 : HttpSession b (Handler b) (Server b)) × Handled b (own b k c l.app.server) s s1
      × Afterwards (λ l1. Tracks b k s1 l1.app) (step b ac (some rm) c l)

  accepted-Tracks :
      (k : ℕ) (s : HttpSession b (Handler b) (Server b)) (p : Program b)
      (ends : Endpoint × Endpoint)
      → Tracks b k s p
      → Tracks b k s (on_accept b (some rm) ends p)
  unfolding on_accept
  accepted-Tracks k s p (remote, local) (follows, numbered) = (
    same-Follows b
        (find-assign p.next k _ p.connections ∙ ground (arith, numbered, nat_beq_iff p.next k))
        follows,
    omega (arith, numbered),
  )

  running-GoesOn :
      (k : ℕ) (c : Completion b) (s : HttpSession b (Handler b) (Server b))
      (l : Listener b ac (Program b)) (handler : Program b → Result (Program b))
      → l.stopped ≡ false
      → GoesOn b rm tame k (own b k c l.app.server) s (handler l.app)
      → (s1 : HttpSession b (Handler b) (Server b)) × Handled b (own b k c l.app.server) s s1
        × Afterwards (λ l1. Tracks b k s1 l1.app) (running b ac (some rm) handler l)
  running-GoesOn k c s l handler live (s1, handled, tracks) = elim (Result-cases (handler l.app)) [
    | inl (p, ran) ↦ (s1, handled, rw (live, ran) (subst (Afterwards (Tracks b k s1)) ran tracks))
    | inr (f, ran) ↦ (s1, handled, rw (live, ran) tt)
  ]

  step-GoesOn :
      (k : ℕ) (c : Completion b) (s : HttpSession b (Handler b) (Server b))
      (l : Listener b ac (Program b))
      → IsServing b ac rm l
      → IsRegular b c l.app
      → Tracks b k s l.app
      → StepGoesOn k c s l
  unfolding step complete ws_done timer_done
  step-GoesOn k (accept_done none ends) s l serving regular tracks =
      (s, nil-Handled b s, rw serving.running (accepted-Tracks k s l.app ends tracks))
  step-GoesOn k (accept_done (some e) ends) s l serving regular tracks =
      (s, nil-Handled b s, rw serving.running tracks)
  step-GoesOn k (http j e) s l serving regular tracks =
      running-GoesOn k (http j e) s l (http_done b j e) serving.running
        (http-GoesOn b rm tame j k e l.app serving.safe regular s tracks)
  step-GoesOn k (socket e) s l serving regular tracks =
      running-GoesOn k (socket e) s l (ws_done b e) serving.running
        (others-GoesOn b rm tame k s l.app _ tracks)
  step-GoesOn k (timer j) s l serving regular tracks =
      running-GoesOn k (timer j) s l (timer_done b j) serving.running
        (others-GoesOn b rm tame k s l.app _ tracks)

  run_all-Handled :
      (k : ℕ) (cs : List (Completion b)) (s : HttpSession b (Handler b) (Server b))
      (l l1 : Listener b ac (Program b))
      → IsServing b ac rm l
      → AreRegular b ac rm cs l
      → Tracks b k s l.app
      → run_all b ac (some rm) cs l ≡ ok l1
      → (s1 : HttpSession b (Handler b) (Server b)) × Handled b
          (happenings b ac (some rm) k cs l)
          s
          s1
        × Tracks b k s1 l1.app
  unfolding run_all happenings
  run_all-Handled k [] s l l1 serving regular tracks ran = (
    s,
    nil-Handled b s,
    subst (λ (x : Listener b ac (Program b)). Tracks b k s x.app) (ok_injective ran) tracks,
  )
  run_all-Handled k (c ∷ cs) s l l1 serving regular tracks ran =
      let (l2, one, serving2, _) = step-Serves b ac rm tame c l serving regular.0 in
      let (s2, handled, tracks2) = step-GoesOn k c s l serving regular.0 tracks in
      let (s1, rest, tracks1) =
        run_all-Handled k cs s2 l2 l1 serving2
          (subst (Afterwards (AreRegular b ac rm cs)) one regular.1)
          (subst (Afterwards (λ l1. Tracks b k s2 l1.app)) one tracks2)
          (ground (arith, one, ran)) in
      (s1, rw one (Handled-append b (own b k c l.app.server) _ s s2 s1 handled rest), tracks1)

  in_flight-eq_writing :
      (k : ℕ) (s : HttpSession b (Handler b) (Server b)) (p : Program b)
      → Follows b k s p
      → in_flight b k p ≡ s.writing
  in_flight-eq_writing k s p (alive c found same) =
      rw (in_flight, found) (ap (λ (x : HttpSession b (Handler b) (Server b)). x.writing) same)
  in_flight-eq_writing k s p (gone missing over) = rw (in_flight, missing) (sym over)

module _ (b : Boost) (ac : Acceptors b Endpoint) where
  -- The connection that has just been accepted.
  accepted :
      (rm : Routes b) (remote local : Endpoint) (l : Listener b ac (Program b))
      → l.stopped ≡ false
      → Tracks b l.app.next
          (serve b (some rm) local l.app.server)
          (complete b ac (on_accept b (some rm)) l (none, (remote, local))).app
  unfolding complete on_accept
  accepted rm remote local l live =
      let c : Connection b = record {
        remote = remote;
        session = serve b (some rm) local l.app.server;
      } in
      rw live (
        alive c
            (ground
              (arith, find-assign l.app.next l.app.next c l.app.connections, eq_refl l.app.next))
            refl,
        omega arith,
      )

  -- A listener of the simple game, or a `TcpListener` of the simple server, is constructed and started,
  -- and any regular completions are handled; then a connection is accepted, and any regular completions
  -- are handled after it, of this connection or not. The run returns. Each request that has been read
  -- from the connection has one response, made of the request, the routes, the listener's members by
  -- then and the response that the answer before has left; or none, if a websocket session takes the
  -- connection over. The responses being written to it at the end are these answers in the order of the
  -- requests, less as many at the front as its writes have completed; there are none if its session has
  -- been destroyed.
  pub listener_run-answers :
      (endpoint : Endpoint) (a : ac.Acceptor) (rm : Routes b)
      → (game_routes b ≡ ok (some rm)) ⊎ (build_route_manager b ≡ ok (some rm))
      → (l : Listener b ac (Program b)) → (make_listener b ac endpoint a (new_program b)).0 ≡ inl l
      → (cs : List (Completion b)) → AreRegular b ac rm cs (start b ac l)
      → (l1 : Listener b ac (Program b)) → run_all b ac (some rm) cs (start b ac l) ≡ ok l1
      → (remote local : Endpoint) (ds : List (Completion b))
      → AreRegular b ac rm (accept_done none (remote, local) ∷ ds) l1
      → let k = l1.app.next in
        let all = accept_done none (remote, local) ∷ ds in
        let own_ones = happenings b ac (some rm) k all l1 in
        (l2 : Listener b ac (Program b)) × (rs : List b.Response) × (run_all b ac (some rm) all l1
          ≡ ok l2)
        × (answers b local (some rm) own_ones none ≡ ok rs)
        × (in_flight b k l2.app ≡ drop (writes b (map (λ h. h.0) own_ones)) rs)
  unfolding run_all step happenings serve
  listener_run-answers endpoint a rm routes l made cs regular l1 ran remote local ds later =
      let tame = game-or-server-IsTame b ac rm routes in
      let serving = (reached b ac endpoint a rm routes l made cs regular l1 ran).serving in
      let new_one = serve b (some rm) local l1.app.server in
      let (l2, ran2, _, _) =
        run_all-Serves b ac rm tame (accept_done none (remote, local) ∷ ds) l1 serving later in
      let (l3, one, serving3, _) =
        step-Serves b ac rm tame (accept_done none (remote, local)) l1 serving tt in
      let (s2, handled, (follows, _)) =
        run_all-Handled b ac rm tame l1.app.next ds new_one _ l2
          (subst (IsServing b ac rm) (sym (ok_injective one)) serving3) later.1
          (accepted rm remote local l1 serving.running) ran2 in
      let (rs, said, left) = Handled-answers b _ new_one s2 handled in
      (l2, rs, ran2, said, in_flight-eq_writing b ac rm tame l1.app.next s2 l2.app follows ∙ left)
