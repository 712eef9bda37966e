-- ===== src/Apps/SimpleGame/Firing.antt =====
-- What the handler of a timer of apps/simple_game/beast.cpp does while the game is ready.
use the_game.Base.{
  ◌≢◌, ℕ, ◌≤◌, ◌≡◌, refl, some, find, nat_eq, list_eq, nat_beq, nat_beq_iff, ok, arith, Bool-cases,
  Option-cases, inl, inr, if◌then◌else◌,
}
use the_game.Networking.Boost.{Boost}
use the_game.Networking.Websocket.{WsSession, put_session, append_and_write}
use the_game.Networking.Websocket.Stores.{put_session-alive, find-put_session}
use the_game.Apps.Connections.{Server, Timer}
use the_game.Apps.Connections.Registry.{IsConsistent, put-IsConsistent}
use the_game.Apps.Connections.Continuing.{Continues, same-Continues, Continues-trans, put-Continues}
use the_game.Apps.SimpleGame.{set_timers, timer_at, without, fire}
use the_game.Apps.SimpleGame.Delays.{fired, run_timer_result}
use the_game.Apps.SimpleGame.Ready.{timers_of, timers_of-without, IsReady, same_ctxs-IsConsistent}

module _ (b : Boost) where
  -- The store after the timer at `k` has fired for the session `s`.
  module _ (k : ℕ) (t : Timer) (st : Server b) (r : IsReady b st)
      (next : timer_at k st.app.timers ≡ some t) where
    timer_session :
        (s : WsSession b.Request) × (find t.session st.sessions ≡ some s)
        × (timers_of t.session st.app.timers ≤ s.held)
    timer_session = r.timed t.session (
        ground (
          arith,
          timers_of-without t.session k st.app.timers t next,
          nat_beq_iff t.session t.session,
        ))

    module _ (s : WsSession b.Request) (alive : find t.session st.sessions ≡ some s) where
      after_fire : Server b
      after_fire =
          let st1 = set_timers b (without k st.app.timers) st in
          put_session t.session (fired b t.session st.app.state s)
            (put_session t.session (append_and_write st.app.state s) st1)

      fire_result : fire b k st ≡ ok after_fire
      unfolding fire after_fire set_timers
      fire_result =
          let st1 = set_timers b (without k st.app.timers) st in
          ground (arith, next, run_timer_result b t.session s st1 alive)

      find-after_fire :
          (j : ℕ)
          → find j after_fire.sessions ≡ (
              if nat_beq t.session j
              then some (fired b t.session st.app.state s)
              else find j st.sessions)
      unfolding after_fire set_timers
      find-after_fire j =
          let st1 = set_timers b (without k st.app.timers) st in
          let s1 = append_and_write st.app.state s in
          let st2 = put_session t.session s1 st1 in
          ground (
            arith,
            find-put_session t.session j st2 (fired b t.session st.app.state s),
            find-put_session t.session j st1 s1,
          )

      after_fire-IsConsistent : IsConsistent b after_fire
      unfolding after_fire set_timers append_and_write
      after_fire-IsConsistent =
          let text = st.app.state in
          let st1 = set_timers b (without k st.app.timers) st in
          let s1 = append_and_write text s in
          let wait = r.consistent.sound.one_wait t.session s alive in
          let c1 : IsConsistent b st1 =
            same_ctxs-IsConsistent b st st1 refl refl refl r.consistent in
          let c2 : IsConsistent b (put_session t.session s1 st1) =
            put-IsConsistent b t.session s s1 st1 c1 alive refl refl wait in
          put-IsConsistent b t.session s1 (fired b t.session text s) (put_session t.session s1 st1)
            c2 (put_session-alive t.session st1 s1) refl refl wait

      after_fire-timed :
          (j : ℕ)
          → 1 ≤ timers_of j (without k st.app.timers)
          → (u : WsSession b.Request) × (find j after_fire.sessions ≡ some u)
            × (timers_of j (without k st.app.timers) ≤ u.held)
      unfolding append_and_write
      after_fire-timed j h =
          let count = timers_of-without j k st.app.timers t next in
          let (u, there, enough) = r.timed j (omega (arith, count)) in
          elim (Bool-cases (nat_beq t.session j)) [
            | inl here ↦ (
              fired b t.session st.app.state s,
              ground (arith, find-after_fire j),
              ground (arith, count, enough, there, alive, nat_beq_iff t.session j),
            )
            | inr other ↦
                (u, ground (arith, find-after_fire j, there), ground (arith, count, enough))
          ]

      after_fire-IsReady : IsReady b after_fire
      unfolding after_fire set_timers put_session
      after_fire-IsReady = record {
        consistent = after_fire-IsConsistent;
        keyed = r.keyed;
        timed = after_fire-timed;
      }

      after_fire-Continues : Continues b st after_fire
      unfolding after_fire set_timers put_session append_and_write
      after_fire-Continues =
          let text = st.app.state in
          let st1 = set_timers b (without k st.app.timers) st in
          let s1 = append_and_write text s in
          let st2 = put_session t.session s1 st1 in
          let s2 = fired b t.session text s in
          Continues-trans b (same-Continues b st st1 refl refl refl) (
            Continues-trans b (put-Continues b t.session s s1 st1 alive refl refl refl refl) (
              put-Continues b t.session s1 s2 st2 (put_session-alive t.session st1 s1) refl refl
                refl refl))

  -- A timer fires, if there is one at this position.
  pub fire-IsReady :
      (k : ℕ) (st : Server b)
      → IsReady b st
      → (st' : Server b) × (fire b k st ≡ ok st') × IsReady b st' × Continues b st st'
  unfolding fire
  fire-IsReady k st r = elim (Option-cases (timer_at k st.app.timers)) [
    | inl quiet ↦ (st, ground (arith, quiet), r, same-Continues b st st refl refl refl)
    | inr (t, next) ↦
        let (s, alive, _) = timer_session k t st r next in
        (
          after_fire k t st r next s alive,
          fire_result k t st r next s alive,
          after_fire-IsReady k t st r next s alive,
          after_fire-Continues k t st r next s alive,
        )
  ]

  -- There is a timer at this position: its session is alive, and is sent the state.
  pub fire-sends :
      (k : ℕ) (t : Timer) (st : Server b)
      → IsReady b st
      → timer_at k st.app.timers ≡ some t
      → (s : WsSession b.Request) × (st' : Server b) × (find t.session st.sessions ≡ some s)
        × (fire b k st ≡ ok st')
        × (find t.session st'.sessions ≡ some (fired b t.session st.app.state s))
        × ((j : ℕ) → t.session ≢ j → find j st'.sessions ≡ find j st.sessions)
        × (st'.app.timers ≡ without k st.app.timers)
  unfolding after_fire set_timers put_session
  fire-sends k t st r next =
      let (s, alive, _) = timer_session k t st r next in
      (
        s,
        after_fire k t st r next s alive,
        alive,
        fire_result k t st r next s alive,
        ground (
          arith,
          find-after_fire k t st r next s alive t.session,
          nat_beq_iff t.session t.session,
        ),
        λ j other. ground (arith, find-after_fire k t st r next s alive j, nat_beq_iff t.session j),
        refl,
      )
