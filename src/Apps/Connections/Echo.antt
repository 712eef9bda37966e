-- ===== src/Apps/Connections/Echo.antt =====
-- What the clients of apps/simple_server and apps/simple_game get back for a message.
use the_game.Base.{
  ℕ, ◌+◌, ◌-◌, ◌≡◌, Bool, not, [], ◌∷◌, ◌++◌, some, Text, codes, find, nat_eq, list_eq, ok, arith,
  length, drop,
}
use the_game.Networking.Boost.{Boost}
use the_game.Networking.Websocket.{WsSession, put_session, append_and_write}
use the_game.Networking.Websocket.Stores.{session_at-alive, put_session-alive, put_session_twice}
use the_game.Networking.Websocket.Session.{read, consume, on_read}
use the_game.Apps.Connections.{Server, on_receive, game_handler}
use the_game.Apps.Connections.Upkeep.{read_again-alive}

module _ (b : Boost) where
  -- What the echo of a message is.
  abbrev pub echo : Text → Text
  echo message = message ++ codes " UwU Kawaiiiiiiii!"

  -- A session after a message: it has sent the echo, and reads again.
  abbrev pub echoed : Bool → Text → WsSession b.Request → WsSession b.Request
  echoed got_text message s =
      let p = s.buffer ++ message in
      record s {
        text = got_text;
        buffer = drop (length p) p;
        write_buf = s.write_buf ++ echo p;
        writing = s.writing ++ (s.write_buf ++ echo p) ∷ [];
        frames = s.frames ++ (s.write_buf ++ echo p) ∷ [];
        reading = s.reading - 1 + 1;
      }

  module _ (id : ℕ) where
    receive_result :
        (s : WsSession b.Request) (st : Server b)
        → find id st.sessions ≡ some s
        → s.ctx.ws_session ≡ some id
        → (p : Text) (n : ℕ) (binary : Bool)
        → on_receive b id p n binary st ≡ ok (put_session id (append_and_write (echo p) s) st)
    unfolding on_receive
    receive_result s st alive self p n binary =
        ground (arith, alive, self, session_at-alive id st s alive)

    consume_result :
        (s : WsSession b.Request) (st : Server b)
        → find id st.sessions ≡ some s
        → (n : ℕ)
        → consume b (game_handler b) id n st
          ≡ ok (put_session id (record s { buffer = drop n s.buffer }) st)
    unfolding consume
    consume_result s st alive n = ground (arith, session_at-alive id st s alive)

  module _ (id : ℕ) (s : WsSession b.Request) (st : Server b) (alive : find id st.sessions ≡ some s)
      (self : s.ctx.ws_session ≡ some id) where
    -- A message that arrives at a session that is alive and whose context points to it: what the session
    -- had not consumed, then the message and then " UwU Kawaiiiiiiii!" are appended to what it still
    -- had to send, all of that is handed to a write, and the next read is started; nothing else of
    -- the listener changes.
    pub message_result :
        (got_text : Bool) (message : Text)
        → on_read b (game_handler b) id got_text message st
          ≡ ok (put_session id (echoed got_text message s) st)
    unfolding on_read append_and_write read
    message_result got_text message =
        let p = s.buffer ++ message in
        let s1 = record s { reading = s.reading - 1; buffer = p; text = got_text } in
        let st1 = put_session id s1 st in
        let s2 = append_and_write (echo p) s1 in
        let st2 = put_session id s2 st1 in
        let s3 = record s2 { buffer = drop (length p) p } in
        let st3 = put_session id s3 st2 in
        ground (
          arith,
          session_at-alive id st s alive,
          receive_result id s1 st1 (put_session-alive id st s1) self p (length p) (not got_text),
          consume_result id s2 st2 (put_session-alive id st1 s2) (length p),
          read_again-alive b id st3 s3 (put_session-alive id st2 s3),
          put_session_twice id (read b s3) s3 st2,
          put_session_twice id (read b s3) s2 st1,
          put_session_twice id (read b s3) s1 st,
        )
