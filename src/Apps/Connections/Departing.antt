-- ===== src/Apps/Connections/Departing.antt =====
-- A websocket session of apps/ that is closed or whose operation fails: the listener's pointers stay
-- live.
use the_game.Base.{
  false, ℕ, ◌-◌, ◌≡◌, refl, ◌≢◌, true, Option, some, Text, find, nat_eq, list_eq, list_beq_iff, ok,
  arith,
}
use the_game.Networking.Boost.{Boost}
use the_game.Networking.Websocket.{WsSession, put_session, release}
use the_game.Networking.Websocket.Stores.{session_at-alive, session_at-put_session}
use the_game.Networking.Websocket.Session.{report, log, on_read_error}
use the_game.Apps.Connections.{Server, forget, on_disconnect, game_handler}
use the_game.Apps.Connections.Registry.{
  IsConsistent, put-IsSound, release-IsConsistent, IsLive-other, put_app,
}
use the_game.Apps.Connections.Upkeep.{
  find-forget, forget-sessions, forget-next_id, IsSound-same, IsLive-same,
}

module _ (b : Boost) where
  -- A session that has been closed is forgotten.
  module _ (id : ℕ) (s : WsSession b.Request) (st : Server b) (c : IsConsistent b st)
      (alive : find id st.sessions ≡ some s) (e : b.Error) (end : b.is_closed e ≡ true) where
    abbrev pub closed : WsSession b.Request
    closed = record s { reading = s.reading - 1; is_open = false }

    pub close_result :
        on_read_error b (game_handler b) id e st
        ≡ ok (release id (forget b s.ctx.uuid (put_session id closed st)))
    unfolding on_read_error on_disconnect
    close_result =
        ground (arith, end, session_at-alive id st s alive, session_at-put_session id st closed)

    pub closed-IsConsistent :
        IsConsistent b (release id (forget b s.ctx.uuid (put_session id closed st)))
    closed-IsConsistent = release-IsConsistent b id _ (record {
      live = λ uuid j h.
          let (other_uuid, old) = still_there uuid j h in
          let l = c.live uuid j old in
          IsLive-same b (forget-sessions b s.ctx.uuid (put_session id closed st)) (
            IsLive-other b id j uuid closed st
              (λ e. other_uuid (ground (arith, alive, l.alive, l.named))) l);
      sound = IsSound-same b (forget-sessions b s.ctx.uuid _) (forget-next_id b s.ctx.uuid _) (
          put-IsSound b id s closed st c.sound alive (λ p. c.sound.opened id s alive (omega arith))
            (omega (arith, c.sound.one_wait id s alive)));
    })
      where
        still_there :
            (uuid : Text) (j : ℕ)
            → find uuid (forget b s.ctx.uuid (put_session id closed st)).app.ctxs ≡ some j
            → (s.ctx.uuid ≢ uuid) × (find uuid st.app.ctxs ≡ some j)
        still_there uuid j h = ground (
          arith,
          find-forget b s.ctx.uuid uuid (put_session id closed st),
          put_app b id closed st,
          list_beq_iff s.ctx.uuid uuid,
        )

  -- Failures that are only reported.
  pub report_result :
      (id : ℕ) (ec : Option b.Error) (what : Text) (st : Server b)
      → report b (game_handler b) id ec what st ≡ ok (release id (log b ec what st))
  unfolding report
  report_result id ec what st = refl

  pub reported-IsConsistent :
      (id : ℕ) (ec : Option b.Error) (what : Text) (st : Server b)
      → IsConsistent b st
      → IsConsistent b (release id (log b ec what st))
  unfolding log
  reported-IsConsistent id ec what st c = release-IsConsistent b id (log b ec what st) (record {
    live = λ uuid j h. IsLive-same b refl (c.live uuid j h);
    sound = IsSound-same b refl refl c.sound;
  })
