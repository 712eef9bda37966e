-- ===== src/Apps/SimpleGame/Ready.antt =====
-- What the simple game (apps/simple_game/beast.cpp) relies on between two handlers, and that the
-- handlers of websocket operations and of timers keep it.
use the_game.Base.{
  ℕ, zero, suc, ◌+◌, ◌≤◌, ◌≡◌, refl, sym, subst, ◌∙◌, ap, List, [], ◌∷◌, ◌++◌, some, Text, find,
  nat_eq, list_eq, nat_beq, ok, arith, if◌then◌else◌, IsKeyed, ok_injective,
}
use the_game.Networking.Boost.{Boost}
use the_game.Networking.Websocket.{WsSession}
use the_game.Apps.Connections.{Server, Timer}
use the_game.Apps.Connections.Registry.{IsConsistent}
use the_game.Apps.Connections.Upkeep.{IsSound-same, IsLive-same}
use the_game.Apps.Connections.Events.{Event, step, IsRegular, step-IsConsistent}
use the_game.Apps.Connections.Effects.{Change, changed-IsKeyed, Effect}
use the_game.Apps.Connections.Changes.{change_of, step-Has}
use the_game.Apps.SimpleGame.{set_game_state, timer_at, without}

-- How many timers hold the session.
abbrev pub timers_of : ℕ → List Timer → ℕ
timers_of id [] = 0
timers_of id (t ∷ ts) = (if nat_beq t.session id then 1 else 0) + timers_of id ts

pub timers_of-append :
    (id : ℕ) (ts us : List Timer) → timers_of id (ts ++ us) ≡ timers_of id ts + timers_of id us
timers_of-append id [] us = omega arith
timers_of-append id (t ∷ ts) us = omega (arith, timers_of-append id ts us)

pub timers_of-without :
    (id k : ℕ) (ts : List Timer) (t : Timer)
    → timer_at k ts ≡ some t
    → timers_of id ts ≡ (if nat_beq t.session id then 1 else 0) + timers_of id (without k ts)
unfolding timer_at without
timers_of-without id k [] t h = cc
timers_of-without id zero (u ∷ ts) t h = ground arith
timers_of-without id (suc k) (u ∷ ts) t h = ground (arith, timers_of-without id k ts t h)

module _ (b : Boost) where
  -- Every pointer that is kept is live, under one entry for each uuid, and a session is held by as
  -- many timers as wait for it, at least, so that it is alive when they fire.
  pub record IsReady (st : Server b) : Type 0 where
    pub consistent : IsConsistent b st
    pub keyed : IsKeyed st.app.ctxs
    pub timed :
        (id : ℕ)
        → 1 ≤ timers_of id st.app.timers
        → (s : WsSession b.Request) × (find id st.sessions ≡ some s)
          × (timers_of id st.app.timers ≤ s.held)

  Effect-timed :
      {c : Change} (st st' : Server b)
      → Effect b c st st'
      → IsReady st
      → (id : ℕ) → 1 ≤ timers_of id st'.app.timers
      → (s : WsSession b.Request) × (find id st'.sessions ≡ some s)
        × (timers_of id st'.app.timers ≤ s.held)
  Effect-timed st st' e r id h =
      let same : timers_of id st'.app.timers ≡ timers_of id st.app.timers =
        ap (timers_of id) e.timers in
      let (s, alive, few) = r.timed id (omega (arith, same)) in
      let (t, alive', held) = e.kept id s alive (omega (arith, same)) in
      (t, alive', omega (arith, same, held))

  pub Effect-IsReady :
      (c : Change) (st st' : Server b)
      → Effect b c st st'
      → IsConsistent b st'
      → IsReady st
      → IsReady st'
  Effect-IsReady c st st' e ok' r = record {
    consistent = ok';
    keyed = rw e.ctxs (changed-IsKeyed c st.app.ctxs r.keyed);
    timed = Effect-timed st st' e r;
  }

  -- A regular completion of a websocket operation.
  pub step-IsReady :
      (e : Event b) (st : Server b)
      → IsReady st
      → IsRegular b e st
      → (st' : Server b) × (step b e st ≡ ok st') × IsReady st' × Effect b (change_of b e st) st st'
  step-IsReady e st r regular =
      let (st1, ran1, good) = step-IsConsistent b e st r.consistent regular in
      let (st2, ran2, effect) = step-Has b st r.consistent e regular in
      let same : st2 ≡ st1 = ok_injective (sym ran2 ∙ ran1) in
      let effect1 : Effect b (change_of b e st) st st1 =
        subst (Effect b (change_of b e st) st) same effect in
      (st1, ran1, Effect-IsReady (change_of b e st) st st1 effect1 good r, effect1)

  -- The state or the timers are set.
  pub same_ctxs-IsConsistent :
      (st st' : Server b)
      → st'.sessions ≡ st.sessions
      → st'.next_id ≡ st.next_id
      → st'.app.ctxs ≡ st.app.ctxs
      → IsConsistent b st
      → IsConsistent b st'
  same_ctxs-IsConsistent st st' p q e c = record {
    live = λ uuid id h. IsLive-same b p (c.live uuid id (rw e at h));
    sound = IsSound-same b p q c.sound;
  }

  pub set_game_state-IsReady :
      (text : Text) (st : Server b) → IsReady st → IsReady (set_game_state b text st)
  unfolding set_game_state
  set_game_state-IsReady text st r = record {
    consistent = same_ctxs-IsConsistent st _ refl refl refl r.consistent;
    keyed = r.keyed;
    timed = r.timed;
  }
