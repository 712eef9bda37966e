-- ===== src/Apps/Connections/Events.antt =====
-- The completions of websocket operations, one after the other, with the listener's callbacks
-- (apps/simple_server and apps/simple_game over networking/websocket/websocket_session.cpp).
use the_game.Base.{
  list_tail, false, ℕ, ◌-◌, ◌≤◌, ◌≡◌, refl, Bool, true, Option, none, some, Text, codes, find,
  nat_eq, list_eq, Result, ok, arith, length,
}
use the_game.Apps.Connections.Echo.{echoed, message_result}
use the_game.Networking.Boost.{Boost, Endpoint}
use the_game.Networking.Websocket.{WsSession, put_session, release, written}
use the_game.Networking.Websocket.Stores.{session_at-alive}
use the_game.Networking.Websocket.Session.{run, log, on_accept, on_read_error, on_read, on_write}
use the_game.Apps.Connections.{Server, game_handler}
use the_game.Apps.Connections.Registry.{IsConsistent, put-IsConsistent, release-IsConsistent}
use the_game.Apps.Connections.Upkeep.{run-IsConsistent, accept_result, registered-IsConsistent}
use the_game.Apps.Connections.Departing.{
  close_result, closed-IsConsistent, report_result, reported-IsConsistent,
}

module _ (b : Boost) where
  -- A completion, with the address of its session; or an upgrade that makes a new session.
  pub data Event : Type 0 where
    upgraded : b.Request → Endpoint → Endpoint → Event
    accepted : ℕ → Option b.Error → Event
    received : ℕ → Bool → Text → Event
    read_failed : ℕ → b.Error → Event
    sent : ℕ → Option b.Error → ℕ → Event

  unfoldable pub step : Event → Server b → Result (Server b)
  step (upgraded request remote local) st = ok (run b request remote local st)
  step (accepted id ec) st = on_accept b (game_handler b) id ec st
  step (received id got_text message) st = on_read b (game_handler b) id got_text message st
  step (read_failed id e) st = on_read_error b (game_handler b) id e st
  step (sent id ec bytes) st = on_write b (game_handler b) id ec bytes st

  -- A handshake that succeeds had a key; of one that fails nothing is asked.
  abbrev pub HasKey : Option b.Error → WsSession b.Request → Type 0
  HasKey none s = (key : Text) × (b.field_at (codes "Sec-WebSocket-Key") s.request ≡ some key)
  HasKey (some e) s = Unit {0}

  -- The operation that completes is in flight; a handshake that succeeds had a key; a read that
  -- fails does so because the peer has closed the connection.
  abbrev pub IsRegular : Event → Server b → Type 0
  IsRegular (upgraded request remote local) st = Unit
  IsRegular (accepted id ec) st =
      (s : WsSession b.Request) × (find id st.sessions ≡ some s) × (1 ≤ s.accepting) × HasKey ec s
  IsRegular (received id got_text message) st =
      (s : WsSession b.Request) × (find id st.sessions ≡ some s) × (1 ≤ s.reading)
  IsRegular (read_failed id e) st =
      (s : WsSession b.Request) × (find id st.sessions ≡ some s)
      × (1 ≤ s.reading)
      × (b.is_closed e ≡ true)
  IsRegular (sent id ec bytes) st =
      (s : WsSession b.Request) × (find id st.sessions ≡ some s) × (1 ≤ length s.writing)

  -- The step returns, and leaves a consistent store.
  abbrev Succeeds : Result (Server b) → Type 0
  Succeeds r = (st : Server b) × (r ≡ ok st) × IsConsistent b st

  module _ (id : ℕ) (s : WsSession b.Request) (st : Server b)
      (alive : find id st.sessions ≡ some s) where
    pub refused_result :
        (e : b.Error)
        → on_accept b (game_handler b) id (some e) st
          ≡ ok (
              release id (
                log b
                  (some e)
                  (codes "on accept")
                  (put_session id (record s { accepting = s.accepting - 1 }) st)))
    unfolding on_accept
    refused_result e =
        let s1 = record s { accepting = s.accepting - 1 } in
        ground (
          arith,
          session_at-alive id st s alive,
          report_result b id (some e) (codes "on accept") (put_session id s1 st),
        )

    pub not_sent_result :
        (e : b.Error) (bytes : ℕ)
        → on_write b (game_handler b) id (some e) bytes st
          ≡ ok (
              release id (
                log b (some e) (codes "on write") (
                  put_session id (record s { writing = list_tail s.writing; is_open = false }) st)))
    unfolding on_write
    not_sent_result e bytes =
        let s1 = record s { writing = list_tail s.writing; is_open = false } in
        ground (
          arith,
          session_at-alive id st s alive,
          report_result b id (some e) (codes "on write") (put_session id s1 st),
        )

    pub sent_result :
        (bytes : ℕ)
        → on_write b (game_handler b) id none bytes st
          ≡ ok (release id (put_session id (written bytes s) st))
    unfolding on_write
    sent_result bytes = ground (arith, session_at-alive id st s alive)

  module _ (id : ℕ) (s : WsSession b.Request) (st : Server b) (c : IsConsistent b st)
      (alive : find id st.sessions ≡ some s) where
    refused : (e : b.Error) → Succeeds (on_accept b (game_handler b) id (some e) st)
    refused e =
        let s1 = record s { accepting = s.accepting - 1 } in
        (
          release id (log b (some e) (codes "on accept") (put_session id s1 st)),
          refused_result id s st alive e,
          reported-IsConsistent b id (some e) (codes "on accept") (put_session id s1 st) (
              put-IsConsistent b id s s1 st c alive refl refl
                (omega (arith, c.sound.one_wait id s alive))),
        )

    not_sent :
        (e : b.Error) (bytes : ℕ) → Succeeds (on_write b (game_handler b) id (some e) bytes st)
    not_sent e bytes =
        let s1 = record s { writing = list_tail s.writing; is_open = false } in
        (
          release id (log b (some e) (codes "on write") (put_session id s1 st)),
          not_sent_result id s st alive e bytes,
          reported-IsConsistent b id (some e) (codes "on write") (put_session id s1 st)
              (put-IsConsistent b id s s1 st c alive refl refl (c.sound.one_wait id s alive)),
        )

    was_sent : (bytes : ℕ) → Succeeds (on_write b (game_handler b) id none bytes st)
    unfolding written
    was_sent bytes =
        let st1 = put_session id (written bytes s) st in
        (
          release id st1,
          sent_result id s st alive bytes,
          release-IsConsistent b id st1 (
              put-IsConsistent b id s (written bytes s) st c alive refl refl
                (c.sound.one_wait id s alive)),
        )

    was_received :
        (got_text : Bool) (message : Text)
        → 1 ≤ s.reading
        → Succeeds (on_read b (game_handler b) id got_text message st)
    was_received got_text message reads = (
      put_session id (echoed b got_text message s) st,
      message_result b id s st alive (c.sound.opened id s alive reads) got_text message,
      put-IsConsistent b id s (echoed b got_text message s) st c alive refl (omega arith)
          (omega (arith, c.sound.one_wait id s alive)),
    )

  -- Started on a consistent store, the handler of a regular completion returns, without following a
  -- pointer to a session that is gone, and leaves the store consistent: every pointer that the
  -- listener keeps leads to a session that is alive, has that uuid and is reading.
  pub step-IsConsistent :
      (e : Event) (st : Server b)
      → IsConsistent b st
      → IsRegular e st
      → (st' : Server b) × (step e st ≡ ok st') × IsConsistent b st'
  unfolding step
  step-IsConsistent (upgraded request remote local) st c _ =
      (run b request remote local st, refl, run-IsConsistent b request remote local st c)
  step-IsConsistent (accepted id (some e)) st c (s, alive, _, _) = refused id s st c alive e
  step-IsConsistent (accepted id none) st c (s, alive, waits, (key, field)) = (
    _,
    accept_result b id key s st c alive waits field,
    registered-IsConsistent b id key s st c alive waits,
  )
  step-IsConsistent (received id got_text message) st c (s, alive, reads) =
      was_received id s st c alive got_text message reads
  step-IsConsistent (read_failed id e) st c (s, alive, reads, end) =
      (_, close_result b id s st c alive e end, closed-IsConsistent b id s st c alive e end)
  step-IsConsistent (sent id (some e) bytes) st c (s, alive, _) = not_sent id s st c alive e bytes
  step-IsConsistent (sent id none bytes) st c (s, alive, _) = was_sent id s st c alive bytes
