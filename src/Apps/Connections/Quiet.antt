-- ===== src/Apps/Connections/Quiet.antt =====
-- Whether a websocket session of apps/ closes its stream when it is destroyed
-- (networking/websocket/websocket_session.h).
use the_game.Base.{
  list_tail, [], ◌++◌, sym, subst, drop-length, ℕ, ◌+◌, ◌-◌, ◌≤◌, ◌≡◌, refl, ◌∙◌, inl, inr, true,
  false, Option, none, some, Text, codes, find, nat_eq, list_eq, nat_beq, nat_beq_iff, Result, ok,
  arith, Bool-cases, Option-cases,
}
use the_game.Networking.Boost.{Boost, Endpoint}
use the_game.Networking.Websocket.{WsSession, put_session, release, owners, close, written}
use the_game.Networking.Websocket.Stores.{find-put_session, find-release}
use the_game.Networking.Websocket.Session.{run, new_session, read, log, on_accept, on_write}
use the_game.Apps.Connections.{Server, set_ctxs, forget}
use the_game.Apps.Connections.Registry.{IsConsistent, put_cases}
use the_game.Apps.Connections.Upkeep.{opened, registered, accept_result}
use the_game.Apps.Connections.Departing.{closed, close_result}
use the_game.Apps.Connections.Echo.{echoed, message_result}
use the_game.Apps.Connections.Events.{
  Event, upgraded, accepted, received, read_failed, sent, step, IsRegular, refused_result,
  not_sent_result, sent_result,
}

module _ (b : Boost) where
  -- Between two handlers a read keeps every session alive whose stream is open, and nothing is left in a
  -- read buffer.
  abbrev pub IsHeldSession : WsSession b.Request → Type 0
  IsHeldSession s = (s.is_open ≡ true → 1 ≤ s.reading) × (s.buffer ≡ [])

  abbrev pub IsHeld : Server b → Type 0
  IsHeld st = (id : ℕ) (s : WsSession b.Request) → find id st.sessions ≡ some s → IsHeldSession s

  -- So it is afterwards as well, and no session has sent a close frame.
  pub record Quietly (st st' : Server b) : Type 0 where
    pub held : IsHeld st → IsHeld st'
    pub silent : IsHeld st → st'.close_frames ≡ st.close_frames

  pub Quietly-trans : {st st1 st2 : Server b} → Quietly st st1 → Quietly st1 st2 → Quietly st st2
  Quietly-trans p q = record {
    held = λ h. q.held (p.held h);
    silent = λ h. q.silent (p.held h) ∙ p.silent h;
  }

  pub same-Quietly :
      {st st' : Server b}
      → st'.sessions ≡ st.sessions
      → st'.close_frames ≡ st.close_frames
      → Quietly st st'
  same-Quietly p q = record { held = λ h id s alive. h id s (rw p at alive); silent = λ h. q }

  -- A session is put back in order, whatever it was before.
  pub put-Quietly :
      (id : ℕ) (s : WsSession b.Request) (st : Server b)
      → (IsHeld st → IsHeldSession s)
      → Quietly st (put_session id s st)
  unfolding put_session
  put-Quietly id s st reads = record {
    held = λ h j t there. elim (put_cases b id j s t st there) [
      | inl (_, same) ↦ subst IsHeldSession (sym same) (reads h)
      | inr old ↦ h j t old
    ];
    silent = λ h. refl;
  }

  -- A session is put back as open as it was, and it reads as much.
  pub put_as-Quietly :
      (id : ℕ) (s s' : WsSession b.Request) (st : Server b)
      → find id st.sessions ≡ some s
      → s'.is_open ≡ s.is_open
      → s'.reading ≡ s.reading
      → s'.buffer ≡ s.buffer
      → Quietly st (put_session id s' st)
  put_as-Quietly id s s' st alive as_open as_much as_full = put-Quietly id s' st λ h.
      (λ is_open. rw as_much ((h id s alive).0 (rw as_open at is_open)), as_full ∙ (h id s alive).1)

  -- Here a session would close its stream: what nothing owns reads nothing, so it is not open.
  pub release-Quietly : (id : ℕ) (st : Server b) → Quietly st (release id st)
  unfolding release close owners
  release-Quietly id st = record {
    held = λ h j t there. h j t (find-release id j st t there);
    silent = λ h. elim (Option-cases (find id st.sessions)) [
      | inl gone ↦ ground (arith, gone)
      | inr (s, alive) ↦ elim (Bool-cases s.is_open) [
        | inl is_open ↦
            let reads = (h id s alive).0 is_open in
            ground (arith, alive, reads, nat_beq_iff (owners s) 0)
        | inr shut ↦ ground (arith, alive, shut)
      ]
    ];
  }

  log-Quietly : (ec : Option b.Error) (what : Text) (st : Server b) → Quietly st (log b ec what st)
  unfolding log
  log-Quietly ec what st = same-Quietly refl refl

  forget-Quietly : (uuid : Text) (st : Server b) → Quietly st (forget b uuid st)
  unfolding forget set_ctxs
  forget-Quietly uuid st = same-Quietly (ground arith) (ground arith)

  pub run-Quietly :
      (request : b.Request) (remote local : Endpoint) (st : Server b)
      → Quietly st (run b request remote local st)
  unfolding run new_session
  run-Quietly request remote local st = Quietly-trans (same-Quietly {st = st} refl refl) (
      put-Quietly st.next_id (new_session b request remote local)
        (record st { next_id = st.next_id + 1 }) (λ h. ((λ e. absurd (cc e)), refl)))

  -- The step returns, and closes nothing.
  abbrev Ends : Server b → Result (Server b) → Type 0
  Ends st r = (st' : Server b) × (r ≡ ok st') × Quietly st st'

  reported-Quietly :
      (id : ℕ) (s : WsSession b.Request) (st : Server b) (ec : Option b.Error) (what : Text)
      → (IsHeld st → IsHeldSession s)
      → Quietly st (release id (log b ec what (put_session id s st)))
  reported-Quietly id s st ec what reads =
      Quietly-trans (put-Quietly id s st reads)
        (Quietly-trans (log-Quietly ec what _) (release-Quietly id _))

  module _ (st : Server b) (c : IsConsistent b st) where
    -- The handshake opens the stream, and the read that keeps the session alive is started at once.
    joined-Quietly :
        (id : ℕ) (key : Text) (s : WsSession b.Request) (alive : find id st.sessions ≡ some s)
        (waits : 1 ≤ s.accepting)
        → Quietly st (
            put_session id
              (read b (opened b id key s st c alive waits))
              (registered b id key s st c alive waits))
    unfolding read set_ctxs put_session
    joined-Quietly id key s alive waits =
        let o = opened b id key s st c alive waits in
        let st1 = registered b id key s st c alive waits in
        record {
          held = λ h j t there. elim (Bool-cases (nat_beq id j)) [
            | inl here ↦
                let is_new : read b o ≡ t =
                  ground (arith, here, there, find-put_session id j st1 (read b o)) in
                subst IsHeldSession is_new ((λ is_open. omega arith), (h id s alive).1)
            | inr other ↦ h j t (
                ground (
                  arith,
                  other,
                  there,
                  find-put_session id j st1 (read b o),
                  find-put_session id j st o,
                ))
          ];
          silent = λ h. refl;
        }

    closed-Quietly :
        (id : ℕ) (s : WsSession b.Request) (alive : find id st.sessions ≡ some s) (e : b.Error)
        (end : b.is_closed e ≡ true)
        → Quietly st
            (release id (forget b s.ctx.uuid (put_session id (closed b id s st c alive e end) st)))
    closed-Quietly id s alive e end =
        Quietly-trans
          (put-Quietly id (closed b id s st c alive e end) st
            (λ h. ((λ is_open. absurd (cc is_open)), (h id s alive).1)))
          (Quietly-trans (forget-Quietly s.ctx.uuid _) (release-Quietly id _))

    -- A regular completion of a websocket operation.
    pub step-Quietly : (e : Event b) → IsRegular b e st → Ends st (step b e st)
    unfolding step on_accept on_write written
    step-Quietly (upgraded request remote local) _ = (_, refl, run-Quietly request remote local st)
    step-Quietly (accepted id (some e)) (s, alive, _, _) =
        let s1 = record s { accepting = s.accepting - 1 } in
        (
          _,
          refused_result b id s st alive e,
          reported-Quietly id s1 st (some e) (codes "on accept") (λ h. h id s alive),
        )
    step-Quietly (accepted id none) (s, alive, waits, (key, field)) =
        (_, accept_result b id key s st c alive waits field, joined-Quietly id key s alive waits)
    step-Quietly (received id got_text message) (s, alive, reads) = (
      _,
      message_result b id s st alive (c.sound.opened id s alive reads) got_text message,
      put-Quietly id (echoed b got_text message s) st
          (λ _. ((λ _. omega arith), drop-length (s.buffer ++ message))),
    )
    step-Quietly (read_failed id e) (s, alive, reads, end) =
        (_, close_result b id s st c alive e end, closed-Quietly id s alive e end)
    step-Quietly (sent id (some e) bytes) (s, alive, _) =
        let s1 = record s { writing = list_tail s.writing; is_open = false } in
        (
          _,
          not_sent_result b id s st alive e bytes,
          reported-Quietly id s1 st (some e) (codes "on write")
              (λ h. ((λ is_open. absurd (cc is_open)), (h id s alive).1)),
        )
    step-Quietly (sent id none bytes) (s, alive, _) = (
      _,
      sent_result b id s st alive bytes,
      Quietly-trans (put_as-Quietly id s (written bytes s) st alive refl refl refl)
          (release-Quietly id _),
    )
