-- ===== src/Networking/Listener/Loop.antt =====
-- The accept loop of networking/tcp_listener_base.cpp against what it should do with the
-- connections that come in.
use the_game.Base.{
  ◌≡◌, refl, ◌∙◌, false, true, List, [], ◌∷◌, ◌++◌, append_assoc, append-nil, Option, none, some,
  Text, codes, arith,
}
use the_game.Networking.Boost.{Boost}
use the_game.Networking.NetUtils.{fail, Acceptors}
use the_game.Networking.Listener.{Listener, start, stop, complete, complete_all}

module _ (b : Boost) {E W Socket : Type 0} (ac : Acceptors b E) (on_accept : Socket → W → W) where
  -- The connections that succeed are handed over in order.
  abbrev pub served : List (Option b.Error × Socket) → W → W
  served [] w = w
  served ((none, socket) ∷ cs) w = served cs (on_accept socket w)
  served ((some e, socket) ∷ cs) w = served cs w

  -- The others are logged in order.
  abbrev pub failures : List (Option b.Error × Socket) → List Text
  failures [] = []
  failures ((none, socket) ∷ cs) = failures cs
  failures ((some e, socket) ∷ cs) = fail b (some e) (codes "accept") ∷ failures cs

  loop :
      (l : Listener b ac W) (cs : List (Option b.Error × Socket))
      → l.stopped ≡ false
      → l.accepting ≡ 1
      → complete_all b ac on_accept l cs
        ≡ record l { app = served cs l.app; logged = l.logged ++ failures cs }
  unfolding complete_all
  loop l [] running one = ground (arith, append-nil l.logged)
  loop l ((none, socket) ∷ cs) running one =
      ground (arith, loop (complete b ac on_accept l (none, socket)) cs)
  loop l ((some e, socket) ∷ cs) running one = ground (
    arith,
    loop (complete b ac on_accept l (some e, socket)) cs,
    append_assoc l.logged (fail b (some e) (codes "accept") ∷ []) (failures cs),
  )

  stopped_for_good :
      (l : Listener b ac W) (cs : List (Option b.Error × Socket))
      → l.stopped ≡ true
      → complete_all b ac on_accept l cs ≡ l
  unfolding complete_all
  stopped_for_good l [] h = refl
  stopped_for_good l (c ∷ cs) h = ground (arith, stopped_for_good l cs h)

  -- After `Start`, whatever sequence of accepts completes, each success is handed to `OnAccept` and
  -- each failure is logged, in order, the listener is not stopped by any of them, and one accept is
  -- in flight; after `Stop` nothing that completes has any effect.
  pub accept_loop :
      (l : Listener b ac W) (cs ds : List (Option b.Error × Socket))
      → l.stopped ≡ false
      → l.accepting ≡ 0
      → let m = complete_all b ac on_accept (start b ac l) cs in
        (m ≡ record l { accepting = 1; app = served cs l.app; logged = l.logged ++ failures cs })
        × (complete_all b ac on_accept (stop b ac m) ds ≡ stop b ac m)
  unfolding start stop
  accept_loop l cs ds running idle =
      (loop (start b ac l) cs running (omega arith) ∙ ground arith, stopped_for_good _ ds refl)
