-- ===== src/Apps/SimpleGame/Reaching.antt =====
-- What one round of the loop over `ctxs_` in apps/simple_game/beast.cpp does.
use the_game.Base.{
  List, append_assoc, Dict, Text, ℕ, ◌+◌, ◌≤◌, ◌≡◌, refl, [], ◌∷◌, ◌++◌, some, none, Text, find,
  nat_eq, list_eq, nat_beq, nat_beq_iff, leb, ok, arith, Bool-cases, inl, inr, if◌then◌else◌,
  Option,
}
use the_game.Networking.Boost.{Boost}
use the_game.Networking.Websocket.{WsSession, put_session, append_and_write, lock}
use the_game.Networking.Websocket.Stores.{find-put_session, session_at-alive}
use the_game.Apps.Connections.{Server, Timer}
use the_game.Apps.Connections.Registry.{IsConsistent, put-IsConsistent}
use the_game.Apps.Connections.Effects.{stays, put-Effect}
use the_game.Apps.Connections.Continuing.{Continues, same-Continues, Continues-trans, put-Continues}
use the_game.Apps.Ports.{ℤ}
use the_game.Apps.SimpleGame.{set_timers, notify}
use the_game.Apps.SimpleGame.Ready.{
  timers_of, timers_of-append, IsReady, Effect-IsReady, same_ctxs-IsConsistent,
}

-- The timers that a broadcast with a delay starts, one for each entry of the map.
abbrev pub timers_for : Option ℤ → Dict Text ℕ → List Timer
timers_for none m = []
timers_for (some secs) [] = []
timers_for (some secs) ((uuid, id) ∷ m) =
    (record { session = id; seconds = secs }) ∷ timers_for (some secs) m

module _ (b : Boost) where
  -- What the program does to a session that a broadcast reaches: it writes the state, or lets a
  -- timer hold the session.
  abbrev pub informed : Option ℤ → Text → WsSession b.Request → WsSession b.Request
  informed none text s = append_and_write text s
  informed (some secs) text s = record s { held = s.held + 1 }

  abbrev started : Option ℤ → ℕ → Server b → Server b
  started none id st = st
  started (some secs) id st =
      set_timers b (st.app.timers ++ (record { session = id; seconds = secs }) ∷ []) st

  abbrev pub reached : Option ℤ → ℕ → WsSession b.Request → Server b → Server b
  reached delay id s st = put_session id (informed delay st.app.state s) (started delay id st)

  pub notify-reached :
      (delay : Option ℤ) (id : ℕ) (s : WsSession b.Request) (st : Server b)
      → find id st.sessions ≡ some s
      → s.ctx.ws_session ≡ some id
      → notify b delay id st ≡ ok (reached delay id s st)
  unfolding notify lock
  notify-reached none id s st alive self =
      ground (arith, alive, self, session_at-alive id st s alive)
  notify-reached (some secs) id s st alive self =
      ground (arith, alive, self, session_at-alive id st s alive)

  pub find-reached :
      (delay : Option ℤ) (id j : ℕ) (s : WsSession b.Request) (st : Server b)
      → find j (reached delay id s st).sessions
        ≡ (if nat_beq id j then some (informed delay st.app.state s) else find j st.sessions)
  unfolding set_timers
  find-reached none id j s st = find-put_session id j st (informed none st.app.state s)
  find-reached (some secs) id j s st =
      find-put_session id j (started (some secs) id st) (informed (some secs) st.app.state s)

  pub reached-ctxs :
      (delay : Option ℤ) (id : ℕ) (s : WsSession b.Request) (st : Server b)
      → (reached delay id s st).app.ctxs ≡ st.app.ctxs
  unfolding put_session set_timers
  reached-ctxs none id s st = refl
  reached-ctxs (some secs) id s st = refl

  pub reached-timers :
      (delay : Option ℤ) (uuid : Text) (id : ℕ) (m : Dict Text ℕ) (s : WsSession b.Request)
      (st : Server b)
      → (reached delay id s st).app.timers ++ timers_for delay m
        ≡ st.app.timers ++ timers_for delay ((uuid, id) ∷ m)
  unfolding put_session set_timers
  reached-timers none uuid id m s st = refl
  reached-timers (some secs) uuid id m s st =
      append_assoc st.app.timers ((record { session = id; seconds = secs }) ∷ [])
        (timers_for (some secs) m)

  pub reached-Continues :
      (delay : Option ℤ) (id : ℕ) (s : WsSession b.Request) (st : Server b)
      → find id st.sessions ≡ some s
      → Continues b st (reached delay id s st)
  unfolding append_and_write set_timers
  reached-Continues none id s st alive =
      put-Continues b id s (informed none st.app.state s) st alive refl refl refl refl
  reached-Continues (some secs) id s st alive =
      let st1 = started (some secs) id st in
      Continues-trans b (same-Continues b st st1 refl refl refl)
        (put-Continues b id s (informed (some secs) st.app.state s) st1 alive refl refl refl refl)

  pub reached-state :
      (delay : Option ℤ) (id : ℕ) (s : WsSession b.Request) (st : Server b)
      → (reached delay id s st).app.state ≡ st.app.state
  unfolding put_session set_timers
  reached-state none id s st = refl
  reached-state (some secs) id s st = refl

  module _ (id : ℕ) (s : WsSession b.Request) (st : Server b) (r : IsReady b st)
      (alive : find id st.sessions ≡ some s) where
    reached-IsConsistent : (delay : Option ℤ) → IsConsistent b (reached delay id s st)
    unfolding append_and_write set_timers
    reached-IsConsistent none =
        put-IsConsistent b id s (informed none st.app.state s) st r.consistent alive refl refl
          (r.consistent.sound.one_wait id s alive)
    reached-IsConsistent (some secs) =
        let st1 = started (some secs) id st in
        put-IsConsistent b id s (informed (some secs) st.app.state s) st1
          (same_ctxs-IsConsistent b st st1 refl refl refl r.consistent) alive refl refl
          (r.consistent.sound.one_wait id s alive)

    timers-le-held : timers_of id st.app.timers ≤ s.held
    timers-le-held = elim (Bool-cases (leb 1 (timers_of id st.app.timers))) [
      | inl some_wait ↦
          let (t, there, enough) = r.timed id (ground (arith, some_wait)) in
          ground (arith, there, enough, alive)
      | inr quiet ↦ ground (arith, quiet)
    ]

    later-timed :
        (secs : ℤ) (j : ℕ)
        → 1 ≤ timers_of j (st.app.timers ++ (record { session = id; seconds = secs }) ∷ [])
        → (t : WsSession b.Request) × (find j (reached (some secs) id s st).sessions ≡ some t)
          × (timers_of j (st.app.timers ++ (record { session = id; seconds = secs }) ∷ []) ≤ t.held)
    later-timed secs j h =
        let new : Timer = record { session = id; seconds = secs } in
        let count = timers_of-append j st.app.timers (new ∷ []) in
        elim (Bool-cases (nat_beq id j)) [
          | inl here ↦
              let is_id : id ≡ j = (nat_beq_iff id j).0 here in
              (
                informed (some secs) st.app.state s,
                ground (arith, find-reached (some secs) id j s st),
                ground (arith, count, timers-le-held, is_id),
              )
          | inr other ↦
              let (t, there, enough) = r.timed j (ground (arith, count, other)) in
              (
                t,
                ground (arith, find-reached (some secs) id j s st, there),
                ground (arith, count, enough),
              )
        ]

    pub reached-IsReady : (delay : Option ℤ) → IsReady b (reached delay id s st)
    unfolding append_and_write set_timers put_session
    reached-IsReady none =
        Effect-IsReady b stays st (reached none id s st)
          (put-Effect b id s (informed none st.app.state s) st alive refl)
          (reached-IsConsistent none) r
    reached-IsReady (some secs) = record {
      consistent = reached-IsConsistent (some secs);
      keyed = r.keyed;
      timed = later-timed secs;
    }
