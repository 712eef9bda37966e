-- ===== src/Networking/Websocket/Session.antt =====
-- `WebSocketSession` of networking/websocket/websocket_session.h and
-- networking/websocket/websocket_session.cpp: each completion handler as a function on the store. The
-- session's `handler_` is the argument `h`, and the session that runs is at the address `id`.
use the_game.Base.{
  list_tail, ℕ, ◌+◌, ◌-◌, Bool, true, false, not, [], ◌∷◌, ◌++◌, Option, none, some, Text, codes,
  length, drop, Result, ok, missing_field, deref, ◌>>=◌, nat_eq,
}
use the_game.Networking.Boost.{Boost, Endpoint}
use the_game.Networking.NetUtils.{fail}
use the_game.Networking.Websocket.{
  new_context, WsSession, Store, WsHandler, session_at, put_session, release, written,
}

module _ (b : Boost) where
  -- The constructor, and what `Run` puts into the context.
  unfoldable pub new_session : b.Request → Endpoint → Endpoint → WsSession b.Request
  new_session request remote local = record {
    ctx = record new_context {
      remote_endpoint = some remote;
      local_endpoint = some local;
      target = b.target request;
    };
    request = request;
    buffer = [];
    write_buf = [];
    text = true;
    is_open = false;
    accepting = 1;
    reading = 0;
    writing = [];
    held = 0;
    frames = [];
  }

  unfoldable pub read : WsSession b.Request → WsSession b.Request
  read s = record s { reading = s.reading + 1 }

module _ (b : Boost) {A : Type 0} where
  unfoldable pub log : Option b.Error → Text → Store b.Request A → Store b.Request A
  log ec what st = record st { logged = st.logged ++ fail b ec what ∷ [] }

  -- `Run`, which starts the accept; the session's address is the next free one.
  unfoldable pub run : b.Request → Endpoint → Endpoint → Store b.Request A → Store b.Request A
  run request remote local st =
      put_session st.next_id (new_session b request remote local)
        (record st { next_id = st.next_id + 1 })

  -- `Read` of the session at an address, at the end of its handler.
  unfoldable pub read_again : ℕ → Store b.Request A → Result (Store b.Request A)
  unfolding read session_at put_session release
  read_again id st = do s ← session_at id st; ok (release id (put_session id (read b s) st))

  module _ (h : WsHandler b.Request b.Error A) (id : ℕ) where
    -- Every handler's branch for an error that is no plain end.
    unfoldable pub report : Option b.Error → Text → Store b.Request A → Result (Store b.Request A)
    unfolding log release
    report ec where' st = do st1 ← h.on_error ec where' (log ec where' st); ok (release id st1)

    unfoldable pub on_accept : Option b.Error → Store b.Request A → Result (Store b.Request A)
    unfolding report read_again session_at put_session
    on_accept (some e) st = do
      s ← session_at id st
      report (some e) (codes "on accept")
          (put_session id (record s { accepting = s.accepting - 1 }) st)
    on_accept none st = do
      s ← session_at id st
      key ← deref missing_field (b.field_at (codes "Sec-WebSocket-Key") s.request)
      st1 ← h.on_connect id (
          put_session id
            (record s {
              accepting = s.accepting - 1;
              is_open = true;
              ctx = record s.ctx { ws_session = some id; uuid = key };
            })
            st)
      read_again id st1

    unfoldable pub on_read_error : b.Error → Store b.Request A → Result (Store b.Request A)
    unfolding report session_at put_session release
    on_read_error e st = do
      s ← session_at id st
      let st1 = put_session id (record s { reading = s.reading - 1; is_open = false }) st
      elim (b.is_closed e) [
        | true ↦ do st2 ← h.on_disconnect id st1; ok (release id st2)
        | false ↦ report (some e) (codes "on read") st1
      ]

    -- `p.size()` bytes are consumed once the handler has had them.
    unfoldable pub consume : ℕ → Store b.Request A → Result (Store b.Request A)
    unfolding session_at put_session
    consume n st = do
      s ← session_at id st
      ok (put_session id (record s { buffer = drop n s.buffer }) st)

    -- A message has been appended to the buffer; `got_text` says of which kind it is.
    unfoldable pub on_read : Bool → Text → Store b.Request A → Result (Store b.Request A)
    unfolding consume read_again session_at put_session
    on_read got_text message st = do
      s ← session_at id st
      let p = s.buffer ++ message
      let s1 = record s { reading = s.reading - 1; buffer = p; text = got_text }
      st1 ← h.on_receive id p (length p) (not got_text) (put_session id s1 st)
      st2 ← consume (length p) st1
      read_again id st2

    unfoldable pub on_write : Option b.Error → ℕ → Store b.Request A → Result (Store b.Request A)
    unfolding report session_at put_session release written
    on_write (some e) bytes st = do
      s ← session_at id st
      report (some e) (codes "on write")
          (put_session id (record s { writing = list_tail s.writing; is_open = false }) st)
    on_write none bytes st = do
      s ← session_at id st
      ok (release id (put_session id (written bytes s) st))
