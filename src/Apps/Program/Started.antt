-- ===== src/Apps/Program/Started.antt =====
-- A listener of apps/ that has just been constructed, and then started.
use the_game.Base.{
  ◌≡◌, sym, subst, ap, ◌∙◌, ◌⊎◌, inl, inr, false, [], some, ok, arith, Bool-cases, find, nat_eq,
}
use the_game.Networking.Boost.{Boost, Endpoint}
use the_game.Networking.NetUtils.{Acceptors, initialize_acceptor}
use the_game.Networking.Listener.{Listener, make_listener, start}
use the_game.Apps.Connections.{Server}
use the_game.Apps.Connections.Quiet.{IsHeld}
use the_game.Apps.Connections.Opens.{IsComplete}
use the_game.Apps.SimpleGame.Ready.{IsReady}
use the_game.Apps.Listeners.{Routes, game_routes, build_route_manager}
use the_game.Apps.Program.{Program}
use the_game.Apps.Program.Tame.{IsTame, game_routes-IsTame, build_route_manager-IsTame}
use the_game.Apps.Program.Fit.{IsSafe}
use the_game.Apps.Program.Runs.{IsServing}

module _ (b : Boost) where
  -- The members of a listener that has just been constructed.
  abbrev pub new_server : Server b
  new_server = record {
    next_id = 0;
    sessions = [];
    logged = [];
    close_frames = [];
    app = record { ctxs = []; state = []; timers = [] };
  }

  abbrev pub new_program : Program b
  new_program = record { connections = []; next = 0; server = new_server }

  pub new_server-IsReady : IsReady b new_server
  unfolding find
  new_server-IsReady = record {
    consistent = record {
      live = λ uuid id h. absurd (cc h);
      sound = record {
        fresh = λ id s h. absurd (cc h);
        one_wait = λ id s h. absurd (cc h);
        opened = λ id s h reads. absurd (cc h);
      };
    };
    keyed = tt;
    timed = λ id h. absurd (omega (arith, h));
  }

  new_program-IsSafe : (rm : Routes b) → IsSafe b rm new_program
  unfolding find
  new_program-IsSafe rm = record { ready = new_server-IsReady; fit = λ k c h. absurd (cc h) }

  module _ (ac : Acceptors b Endpoint) where
    pub game-or-server-IsTame :
        (rm : Routes b)
        → (game_routes b ≡ ok (some rm)) ⊎ (build_route_manager b ≡ ok (some rm))
        → IsTame b rm
    game-or-server-IsTame rm (inl built) = game_routes-IsTame b rm built
    game-or-server-IsTame rm (inr built) = build_route_manager-IsTame b rm built

    module _ (endpoint : Endpoint) (a : ac.Acceptor) (l : Listener b ac (Program b))
        (made : (make_listener b ac endpoint a new_program).0 ≡ inl l) where
      made-fields : (l.stopped ≡ false) × (l.accepting ≡ 0) × (l.app ≡ new_program)
      unfolding make_listener
      made-fields = elim (Bool-cases (initialize_acceptor b ac endpoint a).done) [
        | inl done ↦ ground (arith, done, made)
        | inr undone ↦ ground (arith, undone, made)
      ]

      pub started-IsServing : (rm : Routes b) → IsServing b ac rm (start b ac l)
      unfolding start
      started-IsServing rm =
          let (running, none_yet, app) = made-fields in
          record {
            running = running;
            accepting = omega (arith, none_yet);
            safe = subst (IsSafe b rm) (sym app) (new_program-IsSafe rm);
          }

      pub started-app : (start b ac l).app ≡ new_program
      unfolding start
      started-app = made-fields.2

      pub started-IsHeld : IsHeld b (start b ac l).app.server
      unfolding find
      started-IsHeld =
          subst (λ (p : Program b). IsHeld b p.server) (sym started-app)
            (λ id s alive. absurd (cc alive))

      -- It has no client that the map could lack.
      pub started-IsComplete : IsComplete b (start b ac l).app.server
      unfolding start find
      started-IsComplete id s alive reads =
          absurd
            (cc (sym (ap (λ (p : Program b). find id p.server.sessions) made-fields.2) ∙ alive))
