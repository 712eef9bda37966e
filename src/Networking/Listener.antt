-- ===== src/Networking/Listener.antt =====
-- networking/tcp_listener_base.h and networking/tcp_listener_base.cpp: the accept loop. `OnAccept`
-- of the derived class is a function on its state, `app`; `OnClose` and `OnError` are the defaults.
-- A stopped `io_context` runs no more handlers.
pub mod Loop
use the_game.Base.{
  ℕ, ◌+◌, ◌-◌, Bool, true, false, List, [], ◌∷◌, ◌++◌, Option, none, some, Text, codes, ◌⊎◌, inl,
  inr, if◌then◌else◌,
}
use the_game.Networking.Boost.{Boost}
use the_game.Networking.NetUtils.{fail, Acceptors, Initialized, initialize_acceptor}

module _ (b : Boost) {E : Type 0} (ac : Acceptors b E) where
  pub record Listener (W : Type 0) : Type 0 where
    pub acceptor : ac.Acceptor
    -- The `async_accept`s whose handlers have not run.
    pub accepting : ℕ
    pub stopped : Bool
    pub app : W
    pub logged : List Text

  module _ {W : Type 0} where
    -- The constructor: a listener, or the text of the exception; and what was logged.
    unfoldable pub make_listener : E → ac.Acceptor → W → (Listener W ⊎ Text) × List Text
    make_listener endpoint a app =
        let r = initialize_acceptor b ac endpoint a in
        let what = fail b r.ec (codes "InitializeAcceptor") in
        if r.done
        then (
          inl (record {
            acceptor = r.acceptor;
            accepting = 0;
            stopped = false;
            app = app;
            logged = r.logged;
          }),
          r.logged,
        )
        else (inr what, r.logged ++ what ∷ [])

    unfoldable pub do_accept : Listener W → Listener W
    do_accept l = record l { accepting = l.accepting + 1 }

    unfoldable pub start : Listener W → Listener W
    unfolding do_accept
    start l = do_accept l

    unfoldable pub stop : Listener W → Listener W
    stop l = record l { acceptor = ac.close l.acceptor; stopped = true }

    unfoldable pub on_error : Option b.Error → Text → Listener W → Listener W
    on_error ec what l = record l { logged = l.logged ++ fail b ec what ∷ [] }

    module _ {Socket : Type 0} (on_accept : Socket → W → W) where
      unfoldable pub on_accept_continue : Option b.Error → Socket → Listener W → Listener W
      unfolding on_error do_accept
      on_accept_continue (some e) socket l = do_accept (on_error (some e) (codes "accept") l)
      on_accept_continue none socket l = do_accept (record l { app = on_accept socket l.app })

      -- An `async_accept` completes: its handler runs, unless the context has been stopped.
      unfoldable pub complete : Listener W → Option b.Error × Socket → Listener W
      unfolding on_accept_continue
      complete l (ec, socket) =
          if l.stopped
          then l
          else on_accept_continue ec socket (record l { accepting = l.accepting - 1 })

      unfoldable pub complete_all : Listener W → List (Option b.Error × Socket) → Listener W
      unfolding complete
      complete_all l [] = l
      complete_all l (c ∷ cs) = complete_all (complete l c) cs
