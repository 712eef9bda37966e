-- ===== src/Apps/PlayerController.antt =====
-- `WebSocketPlayerController` of apps/simple_server/websocket_player_controller.hpp: it has a copy of
-- the context of a session, which does not keep the session alive, and posts handlers that do nothing
-- on its `io_context`.
use the_game.Base.{
  ℕ, ◌+◌, ◌≤◌, ◌≡◌, refl, ◌≢◌, inl, inr, none, some, Text, find, nat_eq, Result, ok, arith,
  Option-cases, nat_beq_iff, Option,
}
use the_game.Networking.Websocket.{
  WsContext, WsSession, Store, lock, release, owners, send, append_and_write, put_session,
}
use the_game.Networking.Websocket.Stores.{
  session_at-alive, find-put_session, put_session-alive, release-owned,
}

-- What has become of a session that was sent a message, if it was still there.
abbrev pub sent_to :
    {Request : Type 0} → Text → Option (WsSession Request) → Option (WsSession Request)
sent_to message none = none
sent_to message (some s) = some (append_and_write message s)

pub record Controller : Type 0 where
  pub ws_context : WsContext
  -- The handlers that it has posted and that have not run.
  pub posted : ℕ

unfoldable pub make_controller : WsContext → Controller
make_controller ctx = record { ws_context = ctx; posted = 0 }

unfoldable pub on_command : {Command : Type 0} → Command → Controller → Controller
on_command command c = record c { posted = c.posted + 1 }

module _ {Request A : Type 0} where
  -- The session that is locked is held until the function returns.
  unfoldable pub disconnect : Controller → Store Request A → Store Request A
  unfolding lock release
  disconnect c st = elim (lock c.ws_context.ws_session st) [ none ↦ st | some id ↦ release id st ]

  -- A controller disconnects nothing: a session that a handler or a timer holds stays.
  disconnect-same :
      (c : Controller) (id : ℕ) (s : WsSession Request) (st : Store Request A)
      → c.ws_context.ws_session ≡ some id
      → find id st.sessions ≡ some s
      → 1 ≤ owners s
      → disconnect c st ≡ st
  unfolding disconnect
  disconnect-same c id s st linked alive held =
      ground (arith, linked, alive, release-owned id st s alive held)

  unfoldable pub send_message : WsContext → Text → Store Request A → Result (Store Request A)
  unfolding lock send
  send_message ctx message st = elim (lock ctx.ws_session st) [
    | none ↦ ok st
    | some id ↦ send message id st
  ]

  -- `SendMessage` of a controller whose context is that of the session at `id` returns, whatever has
  -- become of the session: if it is alive the message is appended to what it has to send and a write
  -- is started, if not nothing happens; the other sessions and the application's state stay as they are.
  pub send_message_lem :
      (ctx : WsContext) (id : ℕ) (message : Text) (st : Store Request A)
      → ctx.ws_session ≡ some id
      → (st' : Store Request A) × (send_message ctx message st ≡ ok st')
        × (find id st'.sessions ≡ sent_to message (find id st.sessions))
        × ((j : ℕ) → id ≢ j → find j st'.sessions ≡ find j st.sessions)
        × (st'.app ≡ st.app)
  unfolding send_message put_session
  send_message_lem ctx id message st linked = elim (Option-cases (find id st.sessions)) [
    | inl gone ↦ (st, ground (arith, linked, gone), ground (arith, gone), λ j other. refl, refl)
    | inr (s, alive) ↦
        let s' = append_and_write message s in
        (
          put_session id s' st,
          ground (arith, linked, alive, session_at-alive id st s alive),
          ground (arith, alive, put_session-alive id st s'),
          λ j other. ground (arith, find-put_session id j st s', nat_beq_iff id j),
          refl,
        )
  ]
