-- ===== src/Apps/Connections/Losing.antt =====
-- A connection that is lost, in networking/websocket/websocket_session.cpp under the callbacks of apps/.
use the_game.Base.{
  ℕ, ◌-◌, ◌≡◌, ap, ◌∙◌, false, none, some, Text, codes, find, nat_eq, list_eq, ok, arith,
}
use the_game.Networking.Boost.{Boost}
use the_game.Networking.Websocket.{WsSession, put_session, release, owners}
use the_game.Networking.Websocket.Stores.{
  session_at-alive, put_session-alive, release-app, release-alone,
}
use the_game.Networking.Websocket.Session.{log, on_read_error}
use the_game.Apps.Connections.{Game, Server}
use the_game.Apps.Connections.Registry.{IsConsistent}
use the_game.Apps.Connections.Events.{read_failed, step}

module _ (b : Boost) where
  -- A read fails for any other reason than a close frame, such as a lost connection, of a session
  -- that the listener has a pointer to and that nothing but this read holds: `on_disconnect` is not
  -- called, the session is destroyed, and the listener keeps its pointer to it.
  pub lost_connection_dangles :
      (id : ℕ) (uuid : Text) (e : b.Error) (s : WsSession b.Request) (st : Server b)
      → find uuid st.app.ctxs ≡ some id
      → find id st.sessions ≡ some s
      → owners s ≡ 1
      → s.reading ≡ 1
      → b.is_closed e ≡ false
      → (st' : Server b) × (step b (read_failed id e) st ≡ ok st')
        × (find uuid st'.app.ctxs ≡ some id)
        × (find id st'.sessions ≡ none)
        × ¬ IsConsistent b st'
  unfolding step on_read_error owners log
  lost_connection_dangles id uuid e s st kept alive alone reads lost =
      let s1 = record s { reading = s.reading - 1; is_open = false } in
      let st1 = log b (some e) (codes "on read") (put_session id s1 st) in
      let app_kept : find uuid (release id st1).app.ctxs ≡ some id =
        ap (λ (a : Game). find uuid a.ctxs) (release-app id st1) ∙ kept in
      let gone : find id (release id st1).sessions ≡ none =
        release-alone id st1 s1 (put_session-alive id st s1) (omega (arith, alone, reads)) in
      (
        release id st1,
        ground (arith, session_at-alive id st s alive, lost),
        app_kept,
        gone,
        λ c. let l = c.live uuid id app_kept in ground (arith, l.alive),
      )
