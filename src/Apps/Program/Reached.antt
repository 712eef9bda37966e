-- ===== src/Apps/Program/Reached.antt =====
-- What a whole server relies on after any regular run from its start.
use the_game.Base.{
  ◌≡◌, sym, subst, ap, ◌∙◌, ◌⊎◌, inl, inr, List, [], ◌∷◌, ◌++◌, Option, some, Result-cases, ok,
  arith, ok_injective,
}
use the_game.Networking.Boost.{Boost, Endpoint}
use the_game.Networking.NetUtils.{Acceptors}
use the_game.Networking.Listener.{Listener, make_listener, start}
use the_game.Apps.Connections.Opens.{IsComplete}
use the_game.Apps.Connections.Quiet.{IsHeld}
use the_game.Apps.Listeners.{Routes, game_routes, build_route_manager}
use the_game.Apps.Program.{Program, Completion, step, run_all}
use the_game.Apps.Program.Runs.{AreRegular, AreFresh, IsServing, run_all-Serves}
use the_game.Apps.Program.Started.{
  new_program, game-or-server-IsTame, started-IsServing, started-IsComplete, started-IsHeld,
}

module _ (b : Boost) (ac : Acceptors b Endpoint) where
  pub run_all-append :
      (routes : Option (Routes b)) (cs ds : List (Completion b)) (l l' : Listener b ac (Program b))
      → run_all b ac routes cs l ≡ ok l'
      → run_all b ac routes (cs ++ ds) l ≡ run_all b ac routes ds l'
  unfolding run_all
  run_all-append routes [] ds l l' ran = ap (run_all b ac routes ds) (ok_injective ran)
  run_all-append routes (c ∷ cs) ds l l' ran = elim (Result-cases (step b ac routes c l)) [
    | inl (l1, one) ↦ rw one (run_all-append routes cs ds l1 l' (ground (arith, one, ran)))
    | inr (f, one) ↦ absurd (ground (arith, one, ran))
  ]

  module _ (endpoint : Endpoint) (a : ac.Acceptor) (rm : Routes b)
      (routes : (game_routes b ≡ ok (some rm)) ⊎ (build_route_manager b ≡ ok (some rm)))
      (l : Listener b ac (Program b))
      (made : (make_listener b ac endpoint a (new_program b)).0 ≡ inl l) (cs : List (Completion b))
      (regular : AreRegular b ac rm cs (start b ac l)) where
    -- It serves, an open session is kept alive, and the map is complete if no key is used twice.
    pub record IsReached (l1 : Listener b ac (Program b)) : Type 0 where
      pub serving : IsServing b ac rm l1
      pub held : IsHeld b l1.app.server
      pub complete : AreFresh b ac rm cs (start b ac l) → IsComplete b l1.app.server

    pub reached :
        (l1 : Listener b ac (Program b))
        → run_all b ac (some rm) cs (start b ac l) ≡ ok l1
        → IsReached l1
    reached l1 ran =
        let (l1', ran', serves, keeps) =
          run_all-Serves b ac rm (game-or-server-IsTame b ac rm routes) cs (start b ac l)
            (started-IsServing b ac endpoint a l made rm) regular in
        subst IsReached (ok_injective (sym ran' ∙ ran)) (record {
          serving = serves;
          held = keeps.quietly.held (started-IsHeld b ac endpoint a l made);
          complete = λ fresh. keeps.complete fresh (started-IsComplete b ac endpoint a l made);
        })
