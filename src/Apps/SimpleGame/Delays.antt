-- ===== src/Apps/SimpleGame/Delays.antt =====
-- What a delayed broadcast of apps/simple_game/beast.cpp sends.
use the_game.Base.{
  List, ℕ, ◌+◌, ◌-◌, ◌≤◌, ◌≡◌, refl, ap, [], ◌∷◌, ◌++◌, some, Text, find, nat_eq, ok, arith, length,
  length-append,
}
use the_game.Networking.Boost.{Boost}
use the_game.Networking.Websocket.{WsSession, put_session, append_and_write, owners}
use the_game.Networking.Websocket.Stores.{session_at-alive, put_session-alive, release-owned}
use the_game.Apps.Connections.{Server, Timer}
use the_game.Apps.Ports.{ℤ}
use the_game.Apps.SimpleGame.{
  start_timer, set_timers, set_game_state, run_timer, timer_at, without, fire,
}

module _ (b : Boost) (id : ℕ) where
  -- The session behind a timer that has fired.
  abbrev pub fired : Text → WsSession b.Request → WsSession b.Request
  fired text s = record (append_and_write text s) { held = s.held - 1 }

  pub run_timer_result :
      (s : WsSession b.Request) (st : Server b)
      → find id st.sessions ≡ some s
      → run_timer b id st
        ≡ ok (
            put_session id
              (fired st.app.state s)
              (put_session id (append_and_write st.app.state s) st))
  unfolding run_timer append_and_write owners
  run_timer_result s st alive =
      let s1 = append_and_write st.app.state s in
      let st1 = put_session id s1 st in
      let s2 = fired st.app.state s in
      let st2 = put_session id s2 st1 in
      let owned : 1 ≤ owners s2 =
        omega (arith, length-append s.writing ((s.write_buf ++ st.app.state) ∷ [])) in
      ground (
        arith,
        session_at-alive id st s alive,
        session_at-alive id st1 s1 (put_session-alive id st s1),
        release-owned id st2 s2 (put_session-alive id st1 s2) owned,
      )

  timer_at-append : (ts : List Timer) (t : Timer) → timer_at (length ts) (ts ++ t ∷ []) ≡ some t
  unfolding timer_at
  timer_at-append [] t = refl
  timer_at-append (u ∷ ts) t = timer_at-append ts t

  without-append : (ts : List Timer) (t : Timer) → without (length ts) (ts ++ t ∷ []) ≡ ts
  unfolding without
  without-append [] t = refl
  without-append (u ∷ ts) t = ap (◌∷◌ u) (without-append ts t)

  -- A timer is started for a session that is alive, and the state changes before the timer fires:
  -- the client is sent the state as it is when the timer fires, behind what it had not been sent
  -- yet, and not the one that was set when the timer was started; the timer is gone then and no
  -- longer holds the session.
  pub fire_lem :
      (s : WsSession b.Request) (secs : ℤ) (earlier later : Text) (st : Server b)
      → find id st.sessions ≡ some s
      → (st1 : Server b) × (st2 : Server b) × (t : WsSession b.Request) × (start_timer b id secs
            (set_game_state b earlier st)
          ≡ ok st1)
        × (fire b (length st.app.timers) (set_game_state b later st1) ≡ ok st2)
        × (find id st2.sessions ≡ some t)
        × (t.frames ≡ s.frames ++ (s.write_buf ++ later) ∷ [])
        × (t.held ≡ s.held)
        × (st2.app.timers ≡ st.app.timers)
  unfolding start_timer set_game_state set_timers append_and_write put_session fire
  fire_lem s secs earlier later st alive =
      let ts = st.app.timers in
      let timer : Timer = record { session = id; seconds = secs } in
      let st0 = set_game_state b earlier st in
      let s1 = record s { held = s.held + 1 } in
      let st1 = put_session id s1 (set_timers b (ts ++ timer ∷ []) st0) in
      let st2 = set_timers b ts (set_game_state b later st1) in
      let s2 = append_and_write later s1 in
      let s3 = fired later s1 in
      let alive2 : find id st2.sessions ≡ some s1 = put_session-alive id st s1 in
      (
        st1,
        put_session id s3 (put_session id s2 st2),
        s3,
        ground (arith, session_at-alive id st0 s alive),
        ground (
          arith,
          timer_at-append ts timer,
          without-append ts timer,
          run_timer_result s1 st2 alive2,
        ),
        put_session-alive id (put_session id s2 st2) s3,
        refl,
        omega arith,
        refl,
      )
