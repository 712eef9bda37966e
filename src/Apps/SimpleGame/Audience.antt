-- ===== src/Apps/SimpleGame/Audience.antt =====
-- Who hears of a new state of apps/simple_game/beast.cpp: a run of websocket completions, and then
-- the callback that sets the state.
use the_game.Base.{
  ℕ, ◌≤◌, ◌≡◌, refl, subst, true, List, [], ◌∷◌, Option, some, Text, Dict, find, nat_eq, list_eq,
  nat_beq_iff, Result, ok, ◌>>=◌, arith, Afterwards,
}
use the_game.Networking.Boost.{Boost}
use the_game.Networking.Http.Query.{Params}
use the_game.Networking.Websocket.{WsSession}
use the_game.Apps.Connections.{Server}
use the_game.Apps.Connections.Events.{Event, step, IsRegular}
use the_game.Apps.Connections.Changes.{change_of}
use the_game.Apps.Connections.Opens.{IsFresh, IsComplete}
use the_game.Apps.Connections.Complete.{step-IsComplete}
use the_game.Apps.SimpleGame.{set_state, delay_of}
use the_game.Apps.SimpleGame.Ready.{IsReady, step-IsReady}
use the_game.Apps.SimpleGame.Listed.{is_listed}
use the_game.Apps.SimpleGame.Reaching.{informed}
use the_game.Apps.SimpleGame.Delivery.{set_state-Delivers}

pub find-listed :
    (uuid : Text) (id : ℕ) (m : Dict Text ℕ) → find uuid m ≡ some id → is_listed id m ≡ true
unfolding find
find-listed uuid id [] h = absurd (ground arith)
find-listed uuid id ((k, j) ∷ m) h = ground (arith, find-listed uuid id m, nat_beq_iff j id)

module _ (b : Boost) where
  -- The completions, one after the other.
  abbrev pub run_events : List (Event b) → Server b → Result (Server b)
  run_events [] st = ok st
  run_events (e ∷ es) st = step b e st >>= run_events es

  -- Each completion is regular when its turn comes, and nobody joins under a key that the map has.
  abbrev pub AreFresh : List (Event b) → Server b → Type 0
  AreFresh [] st = Unit
  AreFresh (e ∷ es) st =
      IsRegular b e st
      × IsFresh (change_of b e st) st.app.ctxs
      × Afterwards (AreFresh es) (step b e st)

  run_events-IsComplete :
      (es : List (Event b)) (st : Server b)
      → IsReady b st
      → IsComplete b st
      → AreFresh es st
      → (st' : Server b) × (run_events es st ≡ ok st') × IsReady b st' × IsComplete b st'
  run_events-IsComplete [] st r k h = (st, refl, r, k)
  run_events-IsComplete (e ∷ es) st r k (regular, fresh, later) =
      let (st1, ran1, r1, effect) = step-IsReady b e st r regular in
      let k1 = step-IsComplete b st r.consistent k e st1 regular fresh ran1 effect in
      let (st2, ran2, r2, k2) =
        run_events-IsComplete es st1 r1 k1 (subst (Afterwards (AreFresh es)) ran1 later) in
      (st2, ground (arith, ran1, ran2), r2, k2)

  -- The game is ready, its map has every session that is open, and completions of websocket operations
  -- follow, each of them in flight; a handshake that succeeds had a key, which the map does not have at
  -- that time, and a read fails only by a close frame. Then all their handlers return; and if the state
  -- is set next, that returns as well, and every session that is open by then is informed of the new
  -- state, at once or by a timer.
  pub run_events-informed :
      (es : List (Event b)) (st : Server b) (req : b.Request) (params : Option Params)
      (res : b.Response)
      → IsReady b st
      → IsComplete b st
      → AreFresh es st
      → (st1 : Server b) × (st2 : Server b) × (res' : b.Response) × (run_events es st ≡ ok st1)
        × (set_state b req params res st1 ≡ ok (res', st2))
        × (st2.app.state ≡ b.body req)
        × ((id : ℕ) (s : WsSession b.Request)
            → find id st1.sessions ≡ some s
            → 1 ≤ s.reading
            → find id st2.sessions ≡ some (informed b (delay_of params) (b.body req) s))
  run_events-informed es st req params res r k h =
      let (st1, ran, r1, k1) = run_events-IsComplete es st r k h in
      let (st2, set, r2, state, same, _, told) = set_state-Delivers b req params res st1 r1 in
      (
        st1,
        st2,
        _,
        ran,
        set,
        state,
        λ id s alive reads.
            ground (
              arith,
              told id s alive,
              find-listed s.ctx.uuid id st1.app.ctxs (k1 id s alive reads),
            ),
      )
