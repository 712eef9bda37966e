-- ===== src/Networking/Websocket.antt =====
-- networking/websocket: the sessions, on a store that holds every session that is alive. An address
-- is a number that is not used again. A session is alive while something owns it: a completion
-- handler in flight, or a timer of the application; the weak pointer in a context owns nothing.
pub mod Session
pub mod Sending
pub mod Stores
pub mod Interleaving
use the_game.Base.{
  list_tail, ℕ, suc, ◌+◌, Bool, true, false, List, [], ◌∷◌, ◌++◌, Option, none, some, Text, Dict,
  find, assign, erase, nat_eq, length, drop, Result, ok, fault, dangling_pointer, deref, ◌>>=◌,
  if◌then◌else◌, nat_beq,
}
use the_game.Networking.Boost.{Endpoint}

-- `WSContext` of networking/websocket/ws_context.hpp.
pub record WsContext : Type 0 where
  pub remote_endpoint : Option Endpoint
  pub local_endpoint : Option Endpoint
  pub uuid : Text
  pub ws_session : Option ℕ
  pub target : Text

abbrev pub new_context : WsContext
new_context = record {
  remote_endpoint = none;
  local_endpoint = none;
  uuid = [];
  ws_session = none;
  target = [];
}

-- The members of a `WebSocketSession` and of its stream.
pub record WsSession (Request : Type 0) : Type 0 where
  pub ctx : WsContext
  pub request : Request
  pub buffer : Text
  pub write_buf : Text
  -- `stream_.text()`: whether outgoing messages are text.
  pub text : Bool
  -- `stream_.is_open()`: since the handshake, until an operation fails.
  pub is_open : Bool
  -- Operations in flight: accepts, reads, and the messages handed to writes, oldest first.
  pub accepting : ℕ
  pub reading : ℕ
  pub writing : List Text
  -- Timers of the application that hold the session.
  pub held : ℕ
  -- Every message handed to a write so far, oldest first.
  pub frames : List Text

pub record Store (Request A : Type 0) : Type 0 where
  pub next_id : ℕ
  pub sessions : Dict ℕ (WsSession Request)
  pub logged : List Text
  -- The sessions that have sent a close frame, by their addresses.
  pub close_frames : List ℕ
  pub app : A

module _ {Request : Type 0} where
  unfoldable pub owners : WsSession Request → ℕ
  owners s = s.accepting + s.reading + length s.writing + s.held

  -- `Write`: the whole of `write_buf_` is handed over.
  unfoldable pub write : WsSession Request → WsSession Request
  write s = record s {
    writing = s.writing ++ s.write_buf ∷ [];
    frames = s.frames ++ s.write_buf ∷ [];
  }

  unfoldable pub append_and_write : Text → WsSession Request → WsSession Request
  unfolding write
  append_and_write text s = write (record s { write_buf = s.write_buf ++ text })

  -- The end of `OnWrite`.
  unfoldable pub written : ℕ → WsSession Request → WsSession Request
  written bytes s = record s { writing = list_tail s.writing; write_buf = drop bytes s.write_buf }

module _ {Request A : Type 0} where
  -- What a pointer to a session, or to the context in it, refers to.
  unfoldable pub session_at : ℕ → Store Request A → Result (WsSession Request)
  session_at id st = deref dangling_pointer (find id st.sessions)

  unfoldable pub put_session : ℕ → WsSession Request → Store Request A → Store Request A
  put_session id s st = record st { sessions = assign id s st.sessions }

  -- `Close`, which only the destructor calls.
  unfoldable pub close : ℕ → WsSession Request → Store Request A → Store Request A
  close id s st = if s.is_open then record st { close_frames = st.close_frames ++ id ∷ [] } else st

  -- A handler returns, or a timer goes: the session is destroyed when nothing owns it any more.
  unfoldable pub release : ℕ → Store Request A → Store Request A
  unfolding owners close
  release id st = elim (find id st.sessions) [
    | none ↦ st
    | some s ↦
        if nat_beq (owners s) 0
        then (let st1 = close id s st in record st1 { sessions = erase id st1.sessions })
        else st
  ]

  -- `weak_ptr::lock`
  unfoldable pub lock : Option ℕ → Store Request A → Option ℕ
  lock none st = none
  lock (some id) st = elim (find id st.sessions) [ none ↦ none | some s ↦ some id ]

  -- `Send`
  unfoldable pub send : Text → ℕ → Store Request A → Result (Store Request A)
  unfolding append_and_write session_at put_session
  send text id st = do s ← session_at id st; ok (put_session id (append_and_write text s) st)

-- `WSHandler` of networking/websocket/ws_handler.hpp, on the application's state. A reference to a
-- context is the address of the session that it is a member of.
pub record WsHandler (Request Error A : Type 0) : Type 0 where
  pub on_connect : ℕ → Store Request A → Result (Store Request A)
  pub on_disconnect : ℕ → Store Request A → Result (Store Request A)
  pub on_receive : ℕ → Text → ℕ → Bool → Store Request A → Result (Store Request A)
  pub on_error : Option Error → Text → Store Request A → Result (Store Request A)

-- The handlers that are there where none is given.
abbrev pub default_handler : {Request Error A : Type 0} → WsHandler Request Error A
default_handler = record {
  on_connect = λ ctx st. ok st;
  on_disconnect = λ ctx st. ok st;
  on_receive = λ ctx buf size binary st. ok st;
  on_error = λ ec what st. ok st;
}
