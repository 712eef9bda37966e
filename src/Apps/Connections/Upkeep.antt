-- ===== src/Apps/Connections/Upkeep.antt =====
-- Each handler of a websocket session, run with the listener's callbacks (apps/simple_server and
-- apps/simple_game over networking/websocket/websocket_session.cpp), keeps the listener's pointers
-- live; all but one. Here a session comes; Connections/Departing has those that go.
use the_game.Base.{
  ℕ, ◌+◌, ◌-◌, ◌≤◌, ◌≡◌, refl, ◌≢◌, inl, inr, true, none, some, Text, codes, find, assign,
  find-assign, find-erase, ◌==◌, nat_eq, list_eq, list_beq_iff, ok, if◌then◌else◌, arith,
  Bool-cases,
}
use the_game.Networking.Boost.{Boost, Endpoint}
use the_game.Networking.Websocket.{WsSession, put_session, release, owners}
use the_game.Networking.Websocket.Stores.{
  session_at-alive, put_session-alive, session_at-put_session, release-owned,
}
use the_game.Networking.Websocket.Session.{run, new_session, read, read_again, on_accept}
use the_game.Apps.Connections.{Server, set_ctxs, forget, on_connect, game_handler}
use the_game.Apps.Connections.Registry.{
  IsLive, IsSound, IsConsistent, put-IsSound, IsLive-other, put_cases, put_app, put_next,
}

module _ (b : Boost) where
  pub find-forget :
      (uuid k : Text) (st : Server b)
      → find k (forget b uuid st).app.ctxs ≡ (if uuid == k then none else find k st.app.ctxs)
  unfolding forget
  find-forget uuid k st = ground (arith, find-erase uuid k st.app.ctxs, list_beq_iff uuid k)

  pub forget-sessions : (uuid : Text) (st : Server b) → (forget b uuid st).sessions ≡ st.sessions
  unfolding forget
  forget-sessions uuid st = ground arith

  pub forget-next_id : (uuid : Text) (st : Server b) → (forget b uuid st).next_id ≡ st.next_id
  unfolding forget
  forget-next_id uuid st = ground arith

  -- Only what stands in these parts matters.
  pub IsSound-same :
      {st st' : Server b}
      → st'.sessions ≡ st.sessions
      → st'.next_id ≡ st.next_id
      → IsSound b st
      → IsSound b st'
  IsSound-same p q c = record {
    fresh = λ j t h. rw q (c.fresh j t (rw p at h));
    one_wait = λ j t h. c.one_wait j t (rw p at h);
    opened = λ j t h. c.opened j t (rw p at h);
  }

  pub IsLive-same :
      {st st' : Server b} {uuid : Text} {id : ℕ}
      → st'.sessions ≡ st.sessions
      → IsLive b st uuid id
      → IsLive b st' uuid id
  IsLive-same p l = record {
    session = l.session;
    alive = rw p l.alive;
    named = l.named;
    lockable = l.lockable;
    reads = l.reads;
  }

  pub read_again-alive :
      (id : ℕ) (st : Server b) (s : WsSession b.Request)
      → find id st.sessions ≡ some s
      → read_again b id st ≡ ok (put_session id (read b s) st)
  unfolding read_again read owners
  read_again-alive id st s alive =
      let again : release id (put_session id (read b s) st) ≡ put_session id (read b s) st =
        release-owned id _ (read b s) (put_session-alive id st (read b s)) (omega arith) in
      ground (arith, session_at-alive id st s alive, again)

  -- A new session.
  pub run-IsConsistent :
      (request : b.Request) (remote local : Endpoint) (st : Server b)
      → IsConsistent b st
      → IsConsistent b (run b request remote local st)
  unfolding run new_session
  run-IsConsistent request remote local st c = record {
    live = λ uuid j h.
        let l = c.live uuid j (rw (put_app b id new st1) at h) in
        IsLive-other b id j uuid new st1 (λ e. omega (arith, c.sound.fresh j l.session l.alive, e))
          (IsLive-same refl l);
    sound = record {
      fresh = λ j t h. rw (put_next b id new st1) (elim (put_cases b id j new t st1 h) [
        | inl (e, _) ↦ omega (arith, e)
        | inr old ↦ omega (arith, c.sound.fresh j t old)
      ]);
      one_wait = λ j t h. elim (put_cases b id j new t st1 h) [
        | inl (_, e) ↦ ground (arith, e)
        | inr old ↦ c.sound.one_wait j t old
      ];
      opened = λ j t h p. elim (put_cases b id j new t st1 h) [
        | inl (_, e) ↦ absurd (ground (arith, e))
        | inr old ↦ c.sound.opened j t old p
      ];
    };
  }
    where
      id : ℕ
      id = st.next_id

      new : WsSession b.Request
      new = new_session b request remote local

      st1 : Server b
      st1 = record st { next_id = st.next_id + 1 }

  -- A session whose handshake is done is registered under its key.
  module _ (id : ℕ) (key : Text) (s : WsSession b.Request) (st : Server b) (c : IsConsistent b st)
      (alive : find id st.sessions ≡ some s) (waits : 1 ≤ s.accepting) where
    abbrev pub opened : WsSession b.Request
    opened = record s {
      accepting = s.accepting - 1;
      is_open = true;
      ctx = record s.ctx { ws_session = some id; uuid = key };
    }

    abbrev pub registered : Server b
    registered = set_ctxs b (assign key id st.app.ctxs) (put_session id opened st)

    pub accept_result :
        b.field_at (codes "Sec-WebSocket-Key") s.request ≡ some key
        → on_accept b (game_handler b) id none st ≡ ok (put_session id (read b opened) registered)
    unfolding on_accept on_connect
    accept_result field = ground (
      arith,
      field,
      session_at-alive id st s alive,
      session_at-put_session id st opened,
      read_again-alive id registered opened (put_session-alive id st opened),
      put_app b id opened st,
    )

    registered-IsLive :
        (uuid : Text) (j : ℕ)
        → find uuid (assign key id st.app.ctxs) ≡ some j
        → IsLive b (put_session id (read b opened) registered) uuid j
    unfolding read set_ctxs
    registered-IsLive uuid j h = elim (Bool-cases (key == uuid)) [
      | inl here ↦
          let is_id : j ≡ id = ground (arith, find-assign key uuid id st.app.ctxs) in
          rw is_id (record {
            session = read b opened;
            alive = put_session-alive id registered (read b opened);
            named = (list_beq_iff key uuid).0 here;
            lockable = refl;
            reads = omega arith;
          })
      | inr there ↦
          let old : find uuid st.app.ctxs ≡ some j =
            ground (arith, find-assign key uuid id st.app.ctxs) in
          let l = c.live uuid j old in
          let other : id ≢ j =
            (λ e. ground (arith, l.alive, l.reads, alive, c.sound.one_wait id s alive)) in
          IsLive-other b id j uuid (read b opened) registered other
            (IsLive-same refl (IsLive-other b id j uuid opened st other l))
    ]

    pub registered-IsConsistent : IsConsistent b (put_session id (read b opened) registered)
    unfolding read set_ctxs
    registered-IsConsistent = record {
      live =
          λ uuid j h. registered-IsLive uuid j (rw (put_app b id (read b opened) registered) at h);
      sound =
          put-IsSound b id opened (read b opened) registered
            (IsSound-same refl refl (
              put-IsSound b id s opened st c.sound alive (λ p. refl)
                (omega (arith, c.sound.one_wait id s alive))))
            (put_session-alive id st opened) (λ p. refl)
            (omega (arith, c.sound.one_wait id s alive));
    }
