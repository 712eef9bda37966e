-- ===== src/Apps/Program/Runs.antt =====
-- Runs of a whole server, from an `io_context` that has just been started: what completes is regular
-- in the state that it completes in.
use the_game.Base.{
  sym, ap, ◌∙◌, ok_injective, ◌≡◌, refl, subst, false, List, [], ◌∷◌, none, some, Result, ok, arith,
  Afterwards,
}
use the_game.Networking.Boost.{Boost, Endpoint}
use the_game.Networking.NetUtils.{Acceptors}
use the_game.Networking.Listener.{Listener, complete}
use the_game.Apps.Connections.Changes.{change_of}
use the_game.Apps.Connections.Opens.{IsFresh, IsComplete}
use the_game.Apps.Connections.Complete.{step-IsComplete}
use the_game.Apps.Connections.Continuing.{Continues, Continues-IsComplete}
use the_game.Apps.Connections.{Server}
use the_game.Apps.Connections.Registry.{IsConsistent}
use the_game.Apps.Connections.Effects.{Effect}
use the_game.Apps.Connections.Events as Sockets
use the_game.Apps.Connections.Quiet.{Quietly, same-Quietly, Quietly-trans, step-Quietly}
use the_game.Apps.SimpleGame.Ready.{step-IsReady}
use the_game.Apps.SimpleGame.Firing.{fire-IsReady}
use the_game.Apps.Listeners.{Routes}
use the_game.Apps.Program.{
  Program, on_accept, http_done, ws_done, timer_done, Completion, accept_done, http, socket, timer,
  running, step, run_all,
}
use the_game.Apps.Program.Tame.{IsTame}
use the_game.Apps.Program.Fit.{IsSafe, IsRegular, on_accept-IsSafe}
use the_game.Apps.Program.Safety.{http_done-IsSafe}

module _ (b : Boost) (ac : Acceptors b Endpoint) (rm : Routes b) where
  -- Each completion of the list is regular when its turn comes.
  abbrev pub AreRegular : List (Completion b) → Listener b ac (Program b) → Type 0
  AreRegular [] l = Unit
  AreRegular (c ∷ cs) l = IsRegular b c l.app × Afterwards (AreRegular cs) (step b ac (some rm) c l)

  -- The listener runs, with an accept in flight, and its program is safe.
  pub record IsServing (l : Listener b ac (Program b)) : Type 0 where
    pub running : l.stopped ≡ false
    pub accepting : l.accepting ≡ 1
    pub safe : IsSafe b rm l.app

  -- Nobody opens a websocket session under a key that the map has.
  abbrev pub IsFreshAt : Completion b → Program b → Type 0
  IsFreshAt (accept_done ec ends) p = Unit
  IsFreshAt (http k e) p = Unit
  IsFreshAt (socket e) p = IsFresh (change_of b e p.server) p.server.app.ctxs
  IsFreshAt (timer k) p = Unit

  -- So it is with each completion of the list when its turn comes.
  abbrev pub AreFresh : List (Completion b) → Listener b ac (Program b) → Type 0
  AreFresh [] l = Unit
  AreFresh (c ∷ cs) l = IsFreshAt c l.app × Afterwards (AreFresh cs) (step b ac (some rm) c l)

  -- The map still leads to each session that reads, if what happens in between is fresh, and no
  -- websocket session closes its stream.
  pub record Keeps (Fresh : Type 0) (p p' : Program b) : Type 0 where
    pub complete : Fresh → IsComplete b p.server → IsComplete b p'.server
    pub quietly : Quietly b p.server p'.server

  same-Keeps : {Fresh : Type 0} (p p' : Program b) → p'.server ≡ p.server → Keeps Fresh p p'
  same-Keeps p p' e = record {
    complete = λ _ k. rw e k;
    quietly = same-Quietly b (ap (λ st. st.sessions) e) (ap (λ st. st.close_frames) e);
  }

  Continues-Keeps :
      {Fresh : Type 0} (p p' : Program b) → Continues b p.server p'.server → Keeps Fresh p p'
  Continues-Keeps p p' c = record {
    complete = λ _ k. Continues-IsComplete b c k;
    quietly = c.quietly;
  }

  -- A websocket operation completes.
  socket-Keeps :
      (e : Sockets.Event b) (p : Program b) (st : Server b)
      → IsConsistent b p.server
      → Sockets.IsRegular b e p.server
      → Sockets.step b e p.server ≡ ok st
      → Effect b (change_of b e p.server) p.server st
      → Keeps (IsFresh (change_of b e p.server) p.server.app.ctxs) p (record p { server = st })
  socket-Keeps e p st c regular ran effect =
      let (st', ran', quietly) = step-Quietly b p.server c e regular in
      let same : st' ≡ st = ok_injective (sym ran' ∙ ran) in
      record {
        complete = λ fresh k. step-IsComplete b p.server c k e st regular fresh ran effect;
        quietly = subst (Quietly b p.server) same quietly;
      }

  -- The result is there, and serves.
  abbrev pub Serves : Type 0 → Program b → Result (Listener b ac (Program b)) → Type 0
  Serves Fresh p r =
      (l : Listener b ac (Program b)) × (r ≡ ok l) × IsServing l × Keeps Fresh p l.app

  ran-Serves :
      {Fresh : Type 0} (handler : Program b → Result (Program b)) (l : Listener b ac (Program b))
      → IsServing l
      → (p : Program b) × (handler l.app ≡ ok p) × IsSafe b rm p × Keeps Fresh l.app p
      → Serves Fresh l.app (running b ac (some rm) handler l)
  ran-Serves handler l s (p, ran, safe, keeps) = (
    record l { app = p },
    ground (arith, s.running, ran),
    record { running = s.running; accepting = s.accepting; safe = safe },
    keeps,
  )

  refused :
      (l : Listener b ac (Program b)) (e : b.Error) (ends : Endpoint × Endpoint)
      → IsServing l
      → IsServing (complete b ac (on_accept b (some rm)) l (some e, ends))
  unfolding complete
  refused l e ends s =
      rw s.running
        (record { running = refl; accepting = omega (arith, s.accepting); safe = s.safe })

  refused-app :
      (l : Listener b ac (Program b)) (e : b.Error) (ends : Endpoint × Endpoint)
      → (complete b ac (on_accept b (some rm)) l (some e, ends)).app ≡ l.app
  unfolding complete
  refused-app l e ends = ground arith

  on_accept-server :
      (ends : Endpoint × Endpoint) (p : Program b)
      → (on_accept b (some rm) ends p).server ≡ p.server
  unfolding on_accept
  on_accept-server (remote, local) p = refl

  module _ (tame : IsTame b rm) where
    pub step-Serves :
        (c : Completion b) (l : Listener b ac (Program b))
        → IsServing l
        → IsRegular b c l.app
        → Serves (IsFreshAt c l.app) l.app (step b ac (some rm) c l)
    unfolding step complete ws_done timer_done
    step-Serves (accept_done none ends) l s _ = (
      record l { app = on_accept b (some rm) ends l.app },
      ground (arith, s.running, s.accepting),
      record {
        running = s.running;
        accepting = s.accepting;
        safe = on_accept-IsSafe b rm ends l.app s.safe;
      },
      same-Keeps l.app (on_accept b (some rm) ends l.app) (on_accept-server ends l.app),
    )
    step-Serves (accept_done (some e) ends) l s _ = (
      complete b ac (on_accept b (some rm)) l (some e, ends),
      refl,
      refused l e ends s,
      same-Keeps l.app _ (ap (λ (p : Program b). p.server) (refused-app l e ends)),
    )
    step-Serves (http k e) l s h =
        let (p, ran, safe, goes_on) = http_done-IsSafe b rm tame k e l.app s.safe h in
        ran-Serves (http_done b k e) l s (p, ran, safe, Continues-Keeps l.app p goes_on)
    step-Serves (socket e) l s h =
        let (st, ran, ready, effect) = step-IsReady b e l.app.server s.safe.ready h in
        ran-Serves (ws_done b e) l s (
          record l.app { server = st },
          ground (arith, ran),
          record { ready = ready; fit = s.safe.fit },
          socket-Keeps e l.app st s.safe.ready.consistent h ran effect,
        )
    step-Serves (timer k) l s h =
        let (st, ran, ready, goes_on) = fire-IsReady b k l.app.server s.safe.ready in
        ran-Serves (timer_done b k) l s (
          record l.app { server = st },
          ground (arith, ran),
          record { ready = ready; fit = s.safe.fit },
          Continues-Keeps l.app (record l.app { server = st }) goes_on,
        )

    pub run_all-Serves :
        (cs : List (Completion b)) (l : Listener b ac (Program b))
        → IsServing l
        → AreRegular cs l
        → Serves (AreFresh cs l) l.app (run_all b ac (some rm) cs l)
    unfolding run_all
    run_all-Serves [] l s h = (l, refl, s, same-Keeps l.app l.app refl)
    run_all-Serves (c ∷ cs) l s h =
        let (l1, ran, s1, keeps1) = step-Serves c l s h.0 in
        let (l2, ran2, s2, keeps2) =
          run_all-Serves cs l1 s1 (subst (Afterwards (AreRegular cs)) ran h.1) in
        (
          l2,
          ground (arith, ran, ran2),
          s2,
          record {
            complete = λ fresh k.
                keeps2.complete (subst (Afterwards (AreFresh cs)) ran fresh.1)
                  (keeps1.complete fresh.0 k);
            quietly = Quietly-trans b keeps1.quietly keeps2.quietly;
          },
        )
