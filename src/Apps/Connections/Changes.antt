-- ===== src/Apps/Connections/Changes.antt =====
-- What each completion of a websocket operation does to the map of contexts that the listeners of
-- apps/ keep.
use the_game.Base.{
  list_tail, false, ℕ, ◌+◌, ◌-◌, ◌≤◌, ◌<◌, ◌≡◌, refl, ap, Bool, Option, none, some, Text, codes,
  find, nat_eq, list_eq, Result, ok, arith, if◌then◌else◌,
}
use the_game.Networking.Boost.{Boost, Endpoint}
use the_game.Networking.Websocket.{WsSession, put_session, release, written}
use the_game.Networking.Websocket.Stores.{put_session-alive, find-put_session}
use the_game.Networking.Websocket.Session.{run, new_session, read, log, on_accept, on_write}
use the_game.Apps.Connections.{Server, set_ctxs, forget}
use the_game.Apps.Connections.Registry.{IsConsistent, put_app}
use the_game.Apps.Connections.Upkeep.{opened, registered, accept_result}
use the_game.Apps.Connections.Departing.{closed, close_result}
use the_game.Apps.Connections.Echo.{echoed, message_result}
use the_game.Apps.Connections.Events.{
  Event, upgraded, accepted, received, read_failed, sent, step, IsRegular, refused_result,
  not_sent_result, sent_result,
}
use the_game.Apps.Connections.Effects.{
  Change, stays, joins, leaves, Effect, then-stays, stays-then, put-Effect, release-Effect,
  log-Effect, forget-Effect, set_ctxs-Effect,
}

module _ (b : Boost) where
  -- The session at an address joins under the key of its handshake.
  pub joining : ℕ → Option (WsSession b.Request) → Change
  joining id none = stays
  joining id (some s) = elim (b.field_at (codes "Sec-WebSocket-Key") s.request) [
    | none ↦ stays
    | some key ↦ joins key id
  ]

  pub leaving : Option (WsSession b.Request) → Change
  leaving none = stays
  leaving (some s) = leaves s.ctx.uuid

  -- A handshake that succeeds registers its session, a close frame removes the entry of the
  -- session's uuid, and nothing else changes the map.
  unfoldable pub change_of : Event b → Server b → Change
  unfolding joining leaving
  change_of (upgraded request remote local) st = stays
  change_of (accepted id (some e)) st = stays
  change_of (accepted id none) st = joining id (find id st.sessions)
  change_of (received id got_text message) st = stays
  change_of (read_failed id e) st = if b.is_closed e then leaving (find id st.sessions) else stays
  change_of (sent id ec bytes) st = stays

  run-Effect :
      (request : b.Request) (remote local : Endpoint) (st : Server b)
      → IsConsistent b st
      → Effect b stays st (run b request remote local st)
  unfolding run
  run-Effect request remote local st c =
      let new = new_session b request remote local in
      let st1 = record st { next_id = st.next_id + 1 } in
      record {
        ctxs = ap (λ a. a.ctxs) (put_app b st.next_id new st1);
        state = ap (λ a. a.state) (put_app b st.next_id new st1);
        timers = ap (λ a. a.timers) (put_app b st.next_id new st1);
        kept = λ j s alive held.
            let older : j < st.next_id = c.sound.fresh j s alive in
            (s, ground (arith, find-put_session st.next_id j st1 new), refl);
      }

  reported-Effect :
      (id : ℕ) (s s' : WsSession b.Request) (st : Server b) (ec : Option b.Error) (what : Text)
      → find id st.sessions ≡ some s
      → s'.held ≡ s.held
      → Effect b stays st (release id (log b ec what (put_session id s' st)))
  reported-Effect id s s' st ec what alive same =
      then-stays b (put-Effect b id s s' st alive same)
        (then-stays b (log-Effect b ec what _) (release-Effect b id _))

  joined-Effect :
      (id : ℕ) (key : Text) (s : WsSession b.Request) (st : Server b) (c : IsConsistent b st)
      (alive : find id st.sessions ≡ some s) (waits : 1 ≤ s.accepting)
      → Effect b (joins key id) st (
          put_session id
            (read b (opened b id key s st c alive waits))
            (registered b id key s st c alive waits))
  unfolding read put_session set_ctxs
  joined-Effect id key s st c alive waits =
      let o = opened b id key s st c alive waits in
      let st1 = put_session id o st in
      stays-then b (put-Effect b id s o st alive refl) (
        then-stays b (set_ctxs-Effect b key id st1) (
          put-Effect b id o (read b o) (registered b id key s st c alive waits)
            (put_session-alive id st o) refl))

  left-Effect :
      (id : ℕ) (s s' : WsSession b.Request) (st : Server b)
      → find id st.sessions ≡ some s
      → s'.held ≡ s.held
      → Effect b (leaves s.ctx.uuid) st (release id (forget b s.ctx.uuid (put_session id s' st)))
  left-Effect id s s' st alive same =
      stays-then b (put-Effect b id s s' st alive same)
        (then-stays b (forget-Effect b s.ctx.uuid _) (release-Effect b id _))

  -- The step returns, and has this effect.
  abbrev pub Has : Change → Server b → Result (Server b) → Type 0
  Has c st r = (st' : Server b) × (r ≡ ok st') × Effect b c st st'

  module _ (st : Server b) (c : IsConsistent b st) where
    accepted-Has :
        (id : ℕ) (ec : Option b.Error)
        → IsRegular b (accepted id ec) st
        → Has (change_of (accepted id ec) st) st (step b (accepted id ec) st)
    unfolding step change_of on_accept
    accepted-Has id (some e) (s, alive, _, _) =
        let s1 = record s { accepting = s.accepting - 1 } in
        (
          _,
          refused_result b id s st alive e,
          reported-Effect id s s1 st (some e) (codes "on accept") alive refl,
        )
    accepted-Has id none (s, alive, waits, (key, field)) =
        let joins_now : joining id (find id st.sessions) ≡ joins key id =
          ground (arith, alive, field) in
        rw joins_now (
          _,
          accept_result b id key s st c alive waits field,
          joined-Effect id key s st c alive waits,
        )

    received-Has :
        (id : ℕ) (got_text : Bool) (message : Text)
        → IsRegular b (received id got_text message) st
        → Has stays st (step b (received id got_text message) st)
    unfolding step
    received-Has id got_text message (s, alive, reads) = (
      put_session id (echoed b got_text message s) st,
      message_result b id s st alive (c.sound.opened id s alive reads) got_text message,
      put-Effect b id s (echoed b got_text message s) st alive refl,
    )

    closed-Has :
        (id : ℕ) (e : b.Error)
        → IsRegular b (read_failed id e) st
        → Has (change_of (read_failed id e) st) st (step b (read_failed id e) st)
    unfolding step change_of
    closed-Has id e (s, alive, reads, end) =
        let leaves_now : (if b.is_closed e then leaving (find id st.sessions) else stays)
            ≡ leaves s.ctx.uuid =
          ground (arith, alive, end) in
        rw leaves_now (
          _,
          close_result b id s st c alive e end,
          left-Effect id s (closed b id s st c alive e end) st alive refl,
        )

    sent-Has :
        (id : ℕ) (ec : Option b.Error) (bytes : ℕ)
        → IsRegular b (sent id ec bytes) st
        → Has stays st (step b (sent id ec bytes) st)
    unfolding step on_write written
    sent-Has id (some e) bytes (s, alive, _) =
        let s1 = record s { writing = list_tail s.writing; is_open = false } in
        (
          _,
          not_sent_result b id s st alive e bytes,
          reported-Effect id s s1 st (some e) (codes "on write") alive refl,
        )
    sent-Has id none bytes (s, alive, _) = (
      release id (put_session id (written bytes s) st),
      sent_result b id s st alive bytes,
      then-stays b (put-Effect b id s (written bytes s) st alive refl) (release-Effect b id _),
    )

    pub step-Has : (e : Event b) → IsRegular b e st → Has (change_of e st) st (step b e st)
    unfolding step change_of
    step-Has (upgraded request remote local) _ = (_, refl, run-Effect request remote local st c)
    step-Has (accepted id ec) r = accepted-Has id ec r
    step-Has (received id got_text message) r = received-Has id got_text message r
    step-Has (read_failed id e) r = closed-Has id e r
    step-Has (sent id ec bytes) r = sent-Has id ec bytes r
