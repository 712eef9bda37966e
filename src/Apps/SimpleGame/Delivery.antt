-- ===== src/Apps/SimpleGame/Delivery.antt =====
-- Whom a broadcast of apps/simple_game/beast.cpp reaches.
use the_game.Base.{
  none, List, append-nil, sym, ℕ, ◌≡◌, refl, ◌∙◌, false, [], ◌∷◌, ◌++◌, some, Text, codes, Dict,
  find, nat_eq, list_eq, nat_beq, nat_beq_iff, ok, arith, Bool-cases, inl, inr, if◌then◌else◌,
  IsKeyed, Option,
}
use the_game.Networking.Boost.{Boost}
use the_game.Networking.Http.Query.{Params}
use the_game.Networking.Websocket.{WsSession}
use the_game.Apps.Connections.{Server, Timer}
use the_game.Apps.Connections.Continuing.{Continues, same-Continues, Continues-trans}
use the_game.Apps.SimpleGame.Listed.{is_listed, Agrees, Agrees-self, unlisted, All-IsLive}
use the_game.Apps.Ports.{ℤ}
use the_game.Apps.SimpleGame.{delay_of, set_game_state, set_state, broadcast, line_feed}
use the_game.Apps.SimpleGame.Reaching.{
  timers_for, reached-timers, informed, reached, notify-reached, find-reached, reached-Continues,
  reached-state, reached-IsReady, reached-ctxs,
}
use the_game.Apps.SimpleGame.Ready.{IsReady, set_game_state-IsReady}

timers_for-nil : (delay : Option ℤ) (ts : List Timer) → ts ++ timers_for delay [] ≡ ts
timers_for-nil none ts = append-nil ts
timers_for-nil (some secs) ts = append-nil ts

module _ (b : Boost) where
  -- What the loop leaves: the sessions that are listed have been informed, the others are as before.
  pub record Delivers (delay : Option ℤ) (m : Dict Text ℕ) (st st' : Server b) : Type 0 where
    pub ready : IsReady b st'
    pub continues : Continues b st st'
    pub state : st'.app.state ≡ st.app.state
    pub timers : st'.app.timers ≡ st.app.timers ++ timers_for delay m
    pub gone : (j : ℕ) → find j st.sessions ≡ none → find j st'.sessions ≡ none
    pub sessions :
        (j : ℕ) (s : WsSession b.Request)
        → find j st.sessions ≡ some s
        → find j st'.sessions ≡ some (if is_listed j m then informed b delay st.app.state s else s)

  broadcast-Delivers :
      (delay : Option ℤ) (m : Dict Text ℕ) (st : Server b)
      → IsReady b st
      → Agrees st.app.ctxs m
      → IsKeyed m
      → (st' : Server b) × (broadcast b delay m st ≡ ok st') × Delivers delay m st st'
  unfolding broadcast
  broadcast-Delivers delay [] st r h k = (
    st,
    refl,
    record {
      ready = r;
      continues = same-Continues b st st refl refl refl;
      state = refl;
      timers = sym (timers_for-nil delay st.app.timers);
      gone = λ j absent. absent;
      sessions = λ j s alive. alive;
    },
  )
  broadcast-Delivers delay ((uuid, id) ∷ m) st r h k =
      let l = r.consistent.live uuid id h.0 in
      let st1 = reached b delay id l.session st in
      let same = reached-ctxs b delay id l.session st in
      let (st2, ran, d) =
        broadcast-Delivers delay m st1 (reached-IsReady b id l.session st r l.alive delay)
          (rw same h.1) k.1 in
      let once : is_listed id m ≡ false =
        unlisted b uuid id st m l k.0 (All-IsLive b st m r.consistent h.1) in
      (
        st2,
        ground (arith, notify-reached b delay id l.session st l.alive l.lockable, ran),
        record {
          ready = d.ready;
          continues =
              Continues-trans b (reached-Continues b delay id l.session st l.alive) d.continues;
          state = d.state ∙ reached-state b delay id l.session st;
          timers = d.timers ∙ reached-timers b delay uuid id m l.session st;
          gone = λ j absent. d.gone j (
              ground
                (arith, find-reached b delay id j l.session st, absent, l.alive, nat_beq_iff id j));
          sessions = λ j s alive. elim (Bool-cases (nat_beq id j)) [
            | inl here ↦
                let told = informed b delay st.app.state l.session in
                let is_id : id ≡ j = (nat_beq_iff id j).0 here in
                let now : find j st1.sessions ≡ some told =
                  find-reached b delay id j l.session st ∙ ground (arith, here) in
                ground (arith, d.sessions j told now, once, is_id, alive, l.alive)
            | inr other ↦
                let now : find j st1.sessions ≡ some s =
                  find-reached b delay id j l.session st ∙ ground (arith, other, alive) in
                ground (arith, d.sessions j s now, other, reached-state b delay id l.session st)
          ];
        },
      )

  -- `set_state` while the game is ready, as the work of its loop.
  pub set_state_result :
      (req : b.Request) (params : Option Params) (res : b.Response) (st : Server b)
      → IsReady b st
      → (st' : Server b) × (set_state b req params res st
          ≡ ok (
            b.set_body
                (codes "Setting state to: " ++ (line_feed ++ b.body req))
                (b.set_field (codes "Content-Type") (codes "text/json; charset=utf-8") res),
            st',
          ))
        × Delivers (delay_of params) st.app.ctxs (set_game_state b (b.body req) st) st'
  unfolding set_state set_game_state
  set_state_result req params res st r =
      let st1 = set_game_state b (b.body req) st in
      let r1 : IsReady b st1 = set_game_state-IsReady b (b.body req) st r in
      let (st2, ran, d) =
        broadcast-Delivers (delay_of params) st.app.ctxs st1 r1 (Agrees-self st.app.ctxs r.keyed)
          r.keyed in
      (st2, ground (arith, ran), d)

  pub set_state-Continues :
      (params : Option Params) (req : b.Request) (st : Server b) {st' : Server b}
      → Delivers (delay_of params) st.app.ctxs (set_game_state b (b.body req) st) st'
      → Continues b st st'
  unfolding set_game_state
  set_state-Continues params req st d =
      Continues-trans b (same-Continues b st _ refl refl refl) d.continues

  -- While the game is ready, `set_state` returns and leaves the game ready, with the body of the request
  -- as its state; every session that the map of contexts lists has then been informed of that state,
  -- once: without a "delay" it is sent the state, with one it is held by a timer; every other session
  -- is as it was; and with a "delay" a timer of that many seconds has been started for each entry of the
  -- map, without one no timer.
  pub set_state-Delivers :
      (req : b.Request) (params : Option Params) (res : b.Response) (st : Server b)
      → IsReady b st
      → (st' : Server b) × (set_state b req params res st
          ≡ ok (
            b.set_body
                (codes "Setting state to: " ++ (line_feed ++ b.body req))
                (b.set_field (codes "Content-Type") (codes "text/json; charset=utf-8") res),
            st',
          ))
        × IsReady b st'
        × (st'.app.state ≡ b.body req)
        × (st'.app.ctxs ≡ st.app.ctxs)
        × (st'.app.timers ≡ st.app.timers ++ timers_for (delay_of params) st.app.ctxs)
        × ((id : ℕ) (s : WsSession b.Request)
            → find id st.sessions ≡ some s
            → find id st'.sessions
              ≡ some (
                  if is_listed id st.app.ctxs
                  then informed b (delay_of params) (b.body req) s
                  else s))
  unfolding set_game_state
  set_state-Delivers req params res st r =
      let (st2, ran, d) = set_state_result req params res st r in
      (st2, ran, d.ready, d.state, d.continues.ctxs, d.timers, d.sessions)
