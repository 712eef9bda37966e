-- ===== src/Apps/SimpleGame.antt =====
-- The HTTP callbacks of apps/simple_game/beast.cpp, on the store of websocket sessions. A timer
-- holds its session until it fires; `fire` is its handler.
pub mod Broadcast
pub mod Delays
pub mod Ready
pub mod Firing
pub mod Listed
pub mod Reaching
pub mod Delivery
pub mod SharedKey
pub mod Audience
pub mod AnyOrder
use the_game.Base.{
  ℕ, zero, suc, ◌+◌, ◌-◌, List, [], ◌∷◌, ◌++◌, Option, none, some, Text, codes, Dict, find, nat_eq,
  list_eq, Result, ok, ◌>>=◌,
}
use the_game.Networking.Boost.{Boost}
use the_game.Networking.Http.Query.{Params}
use the_game.Networking.Http.Session.{Callback}
use the_game.Networking.Websocket.{session_at, put_session, lock, send, release}
use the_game.Apps.Connections.{Server, Timer}
use the_game.Apps.Ports.{ℤ, pos, stoi}

abbrev pub line_feed : Text
line_feed = 10 ∷ []

abbrev quote : Text
quote = 34 ∷ []

-- `ForEachParam`, on the state that `f` changes.
unfoldable pub for_each_param {ℓ} : {S : Type ℓ} → Option Params → (Text → Text → S → S) → S → S
for_each_param none f s = s
for_each_param (some []) f s = s
for_each_param (some ((key, value) ∷ params)) f s = for_each_param (some params) f (f key value s)

-- The body of the answer to "/test".
unfoldable pub test_body : Option Params → Text
unfolding for_each_param
test_body params =
    for_each_param params
      (λ key value text.
        text
        ++ (line_feed
            ++ (codes "  "
                ++ (quote
                    ++ (key
                        ++ (quote
                            ++ (codes " : " ++ (quote ++ (value ++ (quote ++ codes ","))))))))))
      (codes "UwU Kawaiiiiiiii!" ++ (line_feed ++ codes "Params: {"))
    ++ (line_feed ++ codes "}")

unfoldable pub timer_at : ℕ → List Timer → Option Timer
timer_at k [] = none
timer_at zero (t ∷ ts) = some t
timer_at (suc k) (t ∷ ts) = timer_at k ts

unfoldable pub without : ℕ → List Timer → List Timer
without k [] = []
without zero (t ∷ ts) = ts
without (suc k) (t ∷ ts) = t ∷ without k ts

-- The seconds of the parameter "delay", 0 if they are no number.
unfoldable pub delay_of : Option Params → Option ℤ
delay_of none = none
delay_of (some params) = elim (find (codes "delay") params) [
  | none ↦ none
  | some value ↦ elim (stoi value) [ none ↦ some (pos 0) | some n ↦ some n ]
]

module _ (b : Boost) where
  unfoldable pub get_test : Callback b (Server b)
  unfolding test_body
  get_test req params res st = ok (
    b.set_body (test_body params)
        (b.set_field (codes "Content-Type") (codes "text/plain; charset=utf-8") res),
    st,
  )

  unfoldable pub set_timers : List Timer → Server b → Server b
  set_timers timers st = record st { app = record st.app { timers = timers } }

  unfoldable pub set_game_state : Text → Server b → Server b
  set_game_state text st = record st { app = record st.app { state = text } }

  -- `async_wait`: the handler keeps the session and the timer.
  unfoldable pub start_timer : ℕ → ℤ → Server b → Result (Server b)
  unfolding session_at put_session set_timers
  start_timer id secs st = do
    s ← session_at id st
    ok (
        put_session id (record s { held = s.held + 1 })
          (set_timers (st.app.timers ++ (record { session = id; seconds = secs }) ∷ []) st))

  -- A round of the loop over `ctxs_`.
  unfoldable pub notify : Option ℤ → ℕ → Server b → Result (Server b)
  unfolding session_at lock send start_timer
  notify delay ctx st = do
    s ← session_at ctx st
    elim (lock s.ctx.ws_session st) [
      | none ↦ ok st
      | some id ↦ elim delay [ none ↦ send st.app.state id st | some secs ↦ start_timer id secs st ]
    ]

  unfoldable pub broadcast : Option ℤ → Dict Text ℕ → Server b → Result (Server b)
  unfolding notify
  broadcast delay [] st = ok st
  broadcast delay ((uuid, ctx) ∷ ctxs) st = do st' ← notify delay ctx st; broadcast delay ctxs st'

  unfoldable pub set_state : Callback b (Server b)
  unfolding set_game_state delay_of broadcast
  set_state req params res st = do
    st' ← broadcast (delay_of params) st.app.ctxs (set_game_state (b.body req) st)
    ok (
      b.set_body (codes "Setting state to: " ++ (line_feed ++ b.body req))
          (b.set_field (codes "Content-Type") (codes "text/json; charset=utf-8") res),
      st',
    )

  -- The handler of a timer: it sends what the state is by then, and gives up its session.
  unfoldable pub run_timer : ℕ → Server b → Result (Server b)
  unfolding send session_at put_session release
  run_timer id st = do
    st' ← send st.app.state id st
    s ← session_at id st'
    ok (release id (put_session id (record s { held = s.held - 1 }) st'))

  -- The timer at a position of the list fires, and is gone.
  unfoldable pub fire : ℕ → Server b → Result (Server b)
  unfolding set_timers run_timer timer_at without
  fire k st = elim (timer_at k st.app.timers) [
    | none ↦ ok st
    | some t ↦ run_timer t.session (set_timers (without k st.app.timers) st)
  ]
