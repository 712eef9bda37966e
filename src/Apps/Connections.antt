-- ===== src/Apps/Connections.antt =====
-- The websocket handler that apps/simple_server/tcp_listener.cpp and apps/simple_game/beast.cpp both
-- register at "/": the listener keeps, for each uuid, a pointer to the context of a session.
pub mod Registry
pub mod Upkeep
pub mod Departing
pub mod Echo
pub mod Events
pub mod Losing
pub mod Effects
pub mod Changes
pub mod Opens
pub mod Complete
pub mod Quiet
pub mod Continuing
use the_game.Base.{
  ℕ, ◌+◌, Bool, true, false, List, [], ◌∷◌, ◌++◌, Option, none, some, Text, codes, Dict, find,
  assign, erase, is_some, nat_eq, list_eq, Result, ok, ◌>>=◌, if◌then◌else◌,
}
use the_game.Networking.Boost.{Boost}
use the_game.Apps.Ports.{ℤ}
use the_game.Networking.Websocket.{
  WsContext, WsSession, Store, WsHandler, default_handler, session_at, lock, send,
}

-- A timer that holds a session (apps/simple_game): the session's address and the seconds.
pub record Timer : Type 0 where
  pub session : ℕ
  pub seconds : ℤ

-- The members of the listener. Only the simple game uses the state and the timers.
pub record Game : Type 0 where
  pub ctxs : Dict Text ℕ
  pub state : Text
  pub timers : List Timer

module _ (b : Boost) where
  abbrev pub Server : Type 0
  Server = Store b.Request Game

  unfoldable pub set_ctxs : Dict Text ℕ → Server → Server
  set_ctxs ctxs st = record st { app = record st.app { ctxs = ctxs } }

  -- `if (ctxs_.count(uuid)) ctxs_.erase(uuid)`
  unfoldable pub forget : Text → Server → Server
  unfolding set_ctxs
  forget uuid st =
      if is_some (find uuid st.app.ctxs) then set_ctxs (erase uuid st.app.ctxs) st else st

  unfoldable pub on_connect : ℕ → Server → Result Server
  unfolding set_ctxs session_at
  on_connect ctx st = do s ← session_at ctx st; ok (set_ctxs (assign s.ctx.uuid ctx st.app.ctxs) st)

  unfoldable pub on_disconnect : ℕ → Server → Result Server
  unfolding forget session_at
  on_disconnect ctx st = do s ← session_at ctx st; ok (forget s.ctx.uuid st)

  unfoldable pub on_receive : ℕ → Text → ℕ → Bool → Server → Result Server
  unfolding forget session_at lock send
  on_receive ctx buf size is_binary st = do
    s ← session_at ctx st
    elim (lock s.ctx.ws_session st) [
      | some id ↦ send (buf ++ codes " UwU Kawaiiiiiiii!") id st
      | none ↦ ok (forget s.ctx.uuid st)
    ]

  -- The designated initialisers leave `on_error` at its default.
  abbrev pub game_handler : WsHandler b.Request b.Error Game
  game_handler = record default_handler {
    on_connect = on_connect;
    on_disconnect = on_disconnect;
    on_receive = on_receive;
  }
