-- ===== src/Apps/SimpleGame/Broadcast.antt =====
-- What setting the state does with the pointers that the listener keeps (apps/simple_game).
use the_game.Base.{
  ℕ, ◌+◌, ◌≡◌, refl, ◌∙◌, subst, ◌⊎◌, inl, inr, Bool, true, false, [], ◌∷◌, ◌++◌, Option, none,
  some, Text, codes, Dict, find, nat_eq, list_eq, nat_beq_iff, Result, ok, fault, dangling_pointer,
  is_some, arith, Option-cases, if◌then◌else◌,
}
use the_game.Networking.Boost.{Boost}
use the_game.Networking.Http.Query.{Params}
use the_game.Networking.Websocket.{WsSession, session_at, put_session, lock, send, append_and_write}
use the_game.Networking.Websocket.Stores.{session_at-alive, find-put_session}
use the_game.Apps.Connections.{Server}
use the_game.Apps.Ports.{ℤ}
use the_game.Apps.SimpleGame.{
  delay_of, notify, broadcast, start_timer, set_timers, set_game_state, set_state, line_feed,
}

module _ (b : Boost) where
  -- Whether a session is alive.
  abbrev pub is_alive : Server b → ℕ → Bool
  is_alive st id = is_some (find id st.sessions)

  -- Whether every pointer of the list leads to a session that is alive.
  abbrev pub all_alive : Server b → Dict Text ℕ → Bool
  all_alive st [] = true
  all_alive st ((uuid, id) ∷ ctxs) = if is_alive st id then all_alive st ctxs else false

  put-is_alive :
      (id : ℕ) (s : WsSession b.Request) (st : Server b)
      → is_alive st id ≡ true
      → (j : ℕ) → is_alive (put_session id s st) j ≡ is_alive st j
  put-is_alive id s st alive j = ground (arith, find-put_session id j st s, nat_beq_iff id j, alive)

  -- What is alive stays so, and nothing comes to life; the game's state stays.
  abbrev Keeps : Server b → Result (Server b) → Type 0
  Keeps st r =
      (st' : Server b) × (r ≡ ok st')
      × (st'.app.state ≡ st.app.state)
      × ((j : ℕ) → is_alive st' j ≡ is_alive st j)

  send-Keeps :
      (text : Text) (id : ℕ) (s : WsSession b.Request) (st : Server b)
      → find id st.sessions ≡ some s
      → Keeps st (send text id st)
  unfolding send put_session
  send-Keeps text id s st alive = (
    put_session id (append_and_write text s) st,
    ground (arith, session_at-alive id st s alive),
    refl,
    put-is_alive id (append_and_write text s) st (rw alive refl),
  )

  start_timer-Keeps :
      (secs : ℤ) (id : ℕ) (s : WsSession b.Request) (st : Server b)
      → find id st.sessions ≡ some s
      → Keeps st (start_timer b id secs st)
  unfolding start_timer set_timers put_session
  start_timer-Keeps secs id s st alive =
      let s' = record s { held = s.held + 1 } in
      let st' = set_timers b (st.app.timers ++ (record { session = id; seconds = secs }) ∷ []) st in
      (
        put_session id s' st',
        ground (arith, session_at-alive id st s alive),
        refl,
        put-is_alive id s' st' (rw alive refl),
      )

  locked :
      (p : Option ℕ) (st : Server b)
      → (lock p st ≡ none)
        ⊎ ((id : ℕ) × (s : WsSession b.Request) × (lock p st ≡ some id)
            × (find id st.sessions ≡ some s))
  unfolding lock
  locked none st = inl refl
  locked (some id) st = elim (Option-cases (find id st.sessions)) [
    | inl gone ↦ inl (ground (arith, gone))
    | inr (s, alive) ↦ inr (id, s, ground (arith, alive), alive)
  ]

  -- What a locked session is told.
  abbrev tell : Option ℤ → ℕ → Server b → Result (Server b)
  tell none j st = send st.app.state j st
  tell (some secs) j st = start_timer b j secs st

  tell-Keeps :
      (delay : Option ℤ) (j : ℕ) (t : WsSession b.Request) (st : Server b)
      → find j st.sessions ≡ some t
      → Keeps st (tell delay j st)
  tell-Keeps none j t st found = send-Keeps st.app.state j t st found
  tell-Keeps (some secs) j t st found = start_timer-Keeps secs j t st found

  module _ (id : ℕ) (s : WsSession b.Request) (st : Server b)
      (alive : find id st.sessions ≡ some s) where
    notify_unlocked :
        (delay : Option ℤ) → lock s.ctx.ws_session st ≡ none → notify b delay id st ≡ ok st
    unfolding notify
    notify_unlocked delay gone = ground (arith, gone, session_at-alive id st s alive)

    notify_locked :
        (delay : Option ℤ) (j : ℕ)
        → lock s.ctx.ws_session st ≡ some j
        → notify b delay id st ≡ tell delay j st
    unfolding notify
    notify_locked none j there = ground (arith, there, session_at-alive id st s alive)
    notify_locked (some secs) j there = ground (arith, there, session_at-alive id st s alive)

    notify-Keeps : (delay : Option ℤ) → Keeps st (notify b delay id st)
    notify-Keeps delay = elim (locked s.ctx.ws_session st) [
      | inl gone ↦ (st, notify_unlocked delay gone, refl, λ j. refl)
      | inr (j, t, there, found) ↦ rw (notify_locked delay j there) (tell-Keeps delay j t st found)
    ]

  all_alive-same :
      (st st' : Server b) (ctxs : Dict Text ℕ)
      → ((j : ℕ) → is_alive st' j ≡ is_alive st j)
      → all_alive st' ctxs ≡ all_alive st ctxs
  all_alive-same st st' [] same = refl
  all_alive-same st st' ((uuid, id) ∷ ctxs) same =
      rw (same id, all_alive-same st st' ctxs same) refl

  -- What the loop over the pointers does, from how alive they are.
  abbrev Proceeds : Bool → Server b → Result (Server b) → Type 0
  Proceeds true st r = Keeps st r
  Proceeds false st r = r ≡ fault dangling_pointer

  broadcast_head :
      (delay : Option ℤ) (uuid : Text) (id : ℕ) (ctxs : Dict Text ℕ) (st st' : Server b)
      → notify b delay id st ≡ ok st'
      → broadcast b delay ((uuid, id) ∷ ctxs) st ≡ broadcast b delay ctxs st'
  unfolding broadcast
  broadcast_head delay uuid id ctxs st st' e = ground (arith, e)

  broadcast_dead :
      (delay : Option ℤ) (uuid : Text) (id : ℕ) (ctxs : Dict Text ℕ) (st : Server b)
      → find id st.sessions ≡ none
      → broadcast b delay ((uuid, id) ∷ ctxs) st ≡ fault dangling_pointer
  unfolding broadcast notify session_at
  broadcast_dead delay uuid id ctxs st dead = ground (arith, dead)

  broadcast_nil : (delay : Option ℤ) (st : Server b) → broadcast b delay [] st ≡ ok st
  unfolding broadcast
  broadcast_nil delay st = refl

  Proceeds-later :
      (ok_all : Bool) (st st' : Server b) (r : Result (Server b))
      → st'.app.state ≡ st.app.state
      → ((j : ℕ) → is_alive st' j ≡ is_alive st j)
      → Proceeds ok_all st' r
      → Proceeds ok_all st r
  Proceeds-later true st st' r kept same (st2, e, kept2, same2) =
      (st2, e, kept2 ∙ kept, λ j. same2 j ∙ same j)
  Proceeds-later false st st' r kept same e = e

  broadcast-Proceeds :
      (delay : Option ℤ) (ctxs : Dict Text ℕ) (st : Server b)
      → Proceeds (all_alive st ctxs) st (broadcast b delay ctxs st)
  broadcast-Proceeds delay [] st = (st, broadcast_nil delay st, refl, λ j. refl)
  broadcast-Proceeds delay ((uuid, id) ∷ ctxs) st = elim (Option-cases (find id st.sessions)) [
    | inl dead ↦ rw dead (broadcast_dead delay uuid id ctxs st dead)
    | inr (s, alive) ↦
        let (st', e, kept, same) = notify-Keeps id s st alive delay in
        rw (alive, broadcast_head delay uuid id ctxs st st' e)
          (Proceeds-later (all_alive st ctxs) st st' (broadcast b delay ctxs st') kept same
            (rw (all_alive-same st st' ctxs same) at (broadcast-Proceeds delay ctxs st')))
  ]

  -- `set_state` returns exactly if every pointer that the listener keeps leads to a session that is
  -- alive; if not, it follows a dangling one. When it returns, the game's state is the body of the
  -- request, the response is the one that says so, and the same sessions are alive as before.
  pub set_state_lem :
      (req : b.Request) (params : Option Params) (res : b.Response) (st : Server b)
      → (all_alive st st.app.ctxs ≡ true
          → (st' : Server b) × (set_state b req params res st
              ≡ ok (
                b.set_body
                    (codes "Setting state to: " ++ (line_feed ++ b.body req))
                    (b.set_field (codes "Content-Type") (codes "text/json; charset=utf-8") res),
                st',
              ))
            × (st'.app.state ≡ b.body req)
            × ((id : ℕ) → is_alive st' id ≡ is_alive st id))
        × (all_alive st st.app.ctxs ≡ false
            → set_state b req params res st ≡ fault dangling_pointer)
  unfolding set_state set_game_state
  set_state_lem req params res st =
      let ctxs = st.app.ctxs in
      let st1 = set_game_state b (b.body req) st in
      let delay = delay_of params in
      let outcome = broadcast-Proceeds delay ctxs st1 in
      let same : all_alive st1 ctxs ≡ all_alive st ctxs = all_alive-same st st1 ctxs (λ j. refl) in
      (
        λ h.
            let (st', e, kept, alike) : Proceeds true st1 (broadcast b delay ctxs st1) =
              subst (λ x. Proceeds x st1 (broadcast b delay ctxs st1)) (same ∙ h) outcome in
            (st', ground (arith, e), kept, alike),
        λ h.
            let e : broadcast b delay ctxs st1 ≡ fault dangling_pointer =
              subst (λ x. Proceeds x st1 (broadcast b delay ctxs st1)) (same ∙ h) outcome in
            ground (arith, e),
      )
