-- ===== src/Apps/Program/Main.antt =====
-- `main` of apps/simple_game/beast.cpp and of apps/simple_server/main.cpp, up to `io_context::run`,
-- and what that runs.
use the_game.Base.{
  ℕ, ◌≡◌, refl, sym, subst, ◌⊎◌, inl, inr, true, false, List, [], Option, none, some, Text, codes,
  Result, ok, fault, Fault, arith, Option-cases, nat_eq,
}
use the_game.Networking.Boost.{Boost, Endpoint}
use the_game.Networking.NetUtils.{
  Acceptors, Runs, finished, failed, succeeded, Initialized, initialize_acceptor-Runs,
  acceptor_calls, fail,
}
use the_game.Networking.Listener.{Listener, make_listener, start}
use the_game.Apps.Listeners.{Routes, game_routes, build_route_manager, main_routes}
use the_game.Apps.Listeners.Serving.{game_routes_lem}
use the_game.Apps.Ports.{ℤ, pos, main_port}
use the_game.Apps.Program.{Program, Completion, run_all}
use the_game.Apps.Program.Runs.{AreRegular, IsServing, run_all-Serves}
use the_game.Apps.Program.Started.{new_program, game-or-server-IsTame, started-IsServing}

module _ (b : Boost) where
  module _ (ac : Acceptors b Endpoint) where
    -- How `main` ends, or with which routes and which listener it runs the `io_context`.
    pub data MainOutcome : Type 0 where
      returns : ℕ → MainOutcome
      throws : Text → MainOutcome
      faults : Fault → MainOutcome
      serves : Option (Routes b) → Listener b ac (Program b) → MainOutcome

    -- The constructor of the listener: the base class first, then the members.
    abbrev pub construct :
        Result (Option (Routes b)) → (Listener b ac (Program b) ⊎ Text) × List Text → MainOutcome
    construct (ok routes) (inl l, logged) = serves routes (start b ac l)
    construct (fault f) (inl l, logged) = faults f
    construct routes (inr what, logged) = throws what

    unfoldable pub main :
        ℤ → Result (Option (Routes b)) → (ℕ → Endpoint) → ac.Acceptor → List Text → MainOutcome
    unfolding main_port make_listener start
    main default routes v4 a args = elim (main_port default args) [
      | none ↦ returns 1
      | some port ↦ construct routes (make_listener b ac (v4 port) a (new_program b))
    ]

    unfoldable pub game_main : (ℕ → Endpoint) → ac.Acceptor → List Text → MainOutcome
    unfolding main game_routes
    game_main v4 a args = main (pos 8880) (game_routes b) v4 a args

    unfoldable pub server_main : (ℕ → Endpoint) → ac.Acceptor → List Text → MainOutcome
    unfolding main
    server_main v4 a args = main (pos 8888) (ok (main_routes b)) v4 a args

    -- What `main` comes to, from its arguments and the four calls on the acceptor.
    pub data Starts (default : ℤ) (rm : Option (Routes b)) (v4 : ℕ → Endpoint) (a : ac.Acceptor)
        (args : List Text) : MainOutcome → Type 0 where
      invalid_port : main_port default args ≡ none → Starts default rm v4 a args (returns 1)
      not_listening :
          {port : ℕ} {e : b.Error} {a' : ac.Acceptor} {logged : List Text}
          → main_port default args ≡ some port
          → Runs b ac
              (acceptor_calls b ac (v4 port))
              a
              (record { done = false; ec = some e; acceptor = a'; logged = logged })
          → Starts default rm v4 a args (throws (fail b (some e) (codes "InitializeAcceptor")))
      listening :
          {port : ℕ} {a' : ac.Acceptor}
          → main_port default args ≡ some port
          → Runs b ac
              (acceptor_calls b ac (v4 port))
              a
              (record { done = true; ec = none; acceptor = a'; logged = [] })
          → Starts default rm v4 a args (
              serves rm (record {
                acceptor = a';
                accepting = 1;
                stopped = false;
                app = new_program b;
                logged = [];
              }))

    Runs-cases :
        {calls : List (Text × (ac.Acceptor → Option b.Error × ac.Acceptor))} {a : ac.Acceptor}
        {r : Initialized b ac}
        → Runs b ac calls a r
        → ((a' : ac.Acceptor) × (r ≡ record { done = true; ec = none; acceptor = a'; logged = [] }))
          ⊎ ((e : b.Error) × (a' : ac.Acceptor) × (logged : List Text) × (r
                ≡ record { done = false; ec = some e; acceptor = a'; logged = logged }))
    Runs-cases (finished a) = inl (a, refl)
    Runs-cases (failed h) = inr (_, _, _, refl)
    Runs-cases (succeeded h rest) = Runs-cases rest

    main-Starts :
        (default : ℤ) (rm : Option (Routes b)) (v4 : ℕ → Endpoint) (a : ac.Acceptor)
        (args : List Text)
        → Starts default rm v4 a args (main default (ok rm) v4 a args)
    unfolding main make_listener start
    main-Starts default rm v4 a args = elim (Option-cases (main_port default args)) [
      | inl none_read ↦
          subst (Starts default rm v4 a args) (sym (ground (arith, none_read)))
            (invalid_port none_read)
      | inr (port, read) ↦
          let runs = initialize_acceptor-Runs b ac (v4 port) a in
          elim (Runs-cases runs) [
            | inl (a', done) ↦
                subst (Starts default rm v4 a args) (sym (ground (arith, read, done)))
                  (listening read (rw done at runs))
            | inr (e, a', logged, done) ↦
                subst (Starts default rm v4 a args) (sym (ground (arith, read, done)))
                  (not_listening read (rw done at runs))
          ]
    ]

    -- `main` of the simple game, whose routes are built without a fault, and of the simple server, whose
    -- route manager is null: without a valid port it returns 1; where one of the four calls on the acceptor
    -- fails, the first failure is thrown; and else the listener's constructor succeeds, and the
    -- `io_context` is run with one accept in flight on an acceptor that listens at the port, with no
    -- connection and no client.
    pub programs-Start :
        (v4 : ℕ → Endpoint) (a : ac.Acceptor) (args : List Text)
        → ((rm : Routes b) × (game_routes b ≡ ok (some rm))
            × Starts (pos 8880) (some rm) v4 a args (game_main v4 a args))
          × Starts (pos 8888) none v4 a args (server_main v4 a args)
    unfolding game_main server_main
    programs-Start v4 a args =
        let (rm, built, _) = game_routes_lem b in
        (
          (rm, built, rw built (main-Starts (pos 8880) (some rm) v4 a args)),
          main-Starts (pos 8888) none v4 a args,
        )

    -- A listener of the simple game, or a `TcpListener` of the simple server, is constructed and started,
    -- and any completions are handled, of accepts, of operations in flight and of timers; a handshake that
    -- succeeds had a key, a websocket read fails only by a close frame, and a request's URI is parsed or
    -- its session has had a response before. Then the whole run returns, without following a pointer to
    -- what is gone, and leaves the listener running, with an accept in flight,
    -- and every connection with a number that has been given out, the listener's routes and one read
    -- in flight at most.
    pub listener_run-Serves :
        (endpoint : Endpoint) (a : ac.Acceptor) (rm : Routes b)
        → (game_routes b ≡ ok (some rm)) ⊎ (build_route_manager b ≡ ok (some rm))
        → (l : Listener b ac (Program b))
        → (make_listener b ac endpoint a (new_program b)).0 ≡ inl l
        → (cs : List (Completion b)) → AreRegular b ac rm cs (start b ac l)
        → (l' : Listener b ac (Program b)) × (run_all b ac (some rm) cs (start b ac l) ≡ ok l')
          × IsServing b ac rm l'
    listener_run-Serves endpoint a rm routes l made cs regular =
        let (l', ran, safe, _) =
          run_all-Serves b ac rm (game-or-server-IsTame b ac rm routes) cs (start b ac l)
            (started-IsServing b ac endpoint a l made rm) regular in
        (l', ran, safe)
