-- ===== src/Apps/Connections/Registry.antt =====
-- Whether the pointers that the listener keeps lead to sessions that are alive, through the
-- handlers of networking/websocket/websocket_session.cpp.
use the_game.Base.{
  ℕ, ◌+◌, ◌≤◌, ◌<◌, ◌≡◌, refl, sym, subst, ◌∙◌, ◌≢◌, ◌⊎◌, inl, inr, some, Text, find, nat_eq,
  list_eq, nat_beq, nat_beq_iff, arith, Bool-cases,
}
use the_game.Networking.Boost.{Boost}
use the_game.Networking.Websocket.{WsSession, put_session, release, owners}
use the_game.Networking.Websocket.Stores.{
  find-put_session, put_session-alive, release-owned, find-release_other, release-app,
  release-next_id, find-release,
}
use the_game.Apps.Connections.{Server}

module _ (b : Boost) where
  -- The pointer for `uuid` leads to a session that is alive, has this uuid, can be locked through
  -- its context, and has a read in flight.
  pub record IsLive (st : Server b) (uuid : Text) (id : ℕ) : Type 0 where
    pub session : WsSession b.Request
    pub alive : find id st.sessions ≡ some session
    pub named : session.ctx.uuid ≡ uuid
    pub lockable : session.ctx.ws_session ≡ some id
    pub reads : 1 ≤ session.reading

  -- Addresses in use are below the next one; a session waits for its handshake or for one message
  -- at most, and while it reads, its context points to it.
  pub record IsSound (st : Server b) : Type 0 where
    pub fresh : (id : ℕ) (s : WsSession b.Request) → find id st.sessions ≡ some s → id < st.next_id
    pub one_wait :
        (id : ℕ) (s : WsSession b.Request)
        → find id st.sessions ≡ some s
        → s.accepting + s.reading ≤ 1
    pub opened :
        (id : ℕ) (s : WsSession b.Request)
        → find id st.sessions ≡ some s
        → 1 ≤ s.reading
        → s.ctx.ws_session ≡ some id

  -- Moreover every pointer that the listener keeps is live.
  pub record IsConsistent (st : Server b) : Type 0 where
    pub live : (uuid : Text) (id : ℕ) → find uuid st.app.ctxs ≡ some id → IsLive st uuid id
    pub sound : IsSound st

  pub put_cases :
      (id j : ℕ) (s t : WsSession b.Request) (st : Server b)
      → find j (put_session id s st).sessions ≡ some t
      → ((j ≡ id) × (t ≡ s)) ⊎ (find j st.sessions ≡ some t)
  put_cases id j s t st h = ground (arith, find-put_session id j st s, nat_beq_iff id j)

  pub put_app :
      (id : ℕ) (s : WsSession b.Request) (st : Server b) → (put_session id s st).app ≡ st.app
  unfolding put_session
  put_app id s st = refl

  pub put_next :
      (id : ℕ) (s : WsSession b.Request) (st : Server b)
      → (put_session id s st).next_id ≡ st.next_id
  unfolding put_session
  put_next id s st = refl

  pub IsLive-other :
      (id j : ℕ) (uuid : Text) (s : WsSession b.Request) (st : Server b)
      → id ≢ j
      → IsLive st uuid j
      → IsLive (put_session id s st) uuid j
  IsLive-other id j uuid s st other l = record {
    session = l.session;
    alive = ground (arith, l.alive, find-put_session id j st s, nat_beq_iff id j);
    named = l.named;
    lockable = l.lockable;
    reads = l.reads;
  }

  -- A session is replaced.
  pub put-IsSound :
      (id : ℕ) (s s' : WsSession b.Request) (st : Server b)
      → IsSound st
      → find id st.sessions ≡ some s
      → (1 ≤ s'.reading → s'.ctx.ws_session ≡ some id)
      → s'.accepting + s'.reading ≤ 1
      → IsSound (put_session id s' st)
  put-IsSound id s s' st c alive open_now wait = record {
    fresh = λ j t h. rw (put_next id s' st) (elim (put_cases id j s' t st h) [
      | inl (e, _) ↦ rw e (c.fresh id s alive)
      | inr old ↦ c.fresh j t old
    ]);
    one_wait = λ j t h. elim (put_cases id j s' t st h) [
      | inl (_, e) ↦ rw e wait
      | inr old ↦ c.one_wait j t old
    ];
    opened = λ j t h p. elim (put_cases id j s' t st h) [
      | inl (e, q) ↦ rw (e, q) (open_now (rw q at p))
      | inr old ↦ c.opened j t old p
    ];
  }

  -- A session is replaced by one with the same context that reads as much.
  module _ (id : ℕ) (s s' : WsSession b.Request) (st : Server b) (c : IsConsistent st)
      (alive : find id st.sessions ≡ some s) (same : s'.ctx ≡ s.ctx)
      (reads : s'.reading ≡ s.reading) (wait : s'.accepting + s'.reading ≤ 1) where
    IsLive-put : (uuid : Text) (j : ℕ) → IsLive st uuid j → IsLive (put_session id s' st) uuid j
    IsLive-put uuid j l = elim (Bool-cases (nat_beq id j)) [
      | inl here ↦
          let e : id ≡ j = (nat_beq_iff id j).0 here in
          let is_s : s ≡ l.session = ground (arith, l.alive) in
          record {
            session = s';
            alive =
                subst (λ k. find k (put_session id s' st).sessions ≡ some s') e
                  (put_session-alive id st s');
            named = ground (arith, l.named);
            lockable = ground (arith, l.lockable);
            reads = ground (arith, l.reads, reads);
          }
      | inr there ↦ IsLive-other id j uuid s' st (λ e. ground (arith, nat_beq_iff id j)) l
    ]

    pub put-IsConsistent : IsConsistent (put_session id s' st)
    put-IsConsistent = record {
      live = λ uuid j h. IsLive-put uuid j (c.live uuid j (rw (put_app id s' st) at h));
      sound =
          put-IsSound id s s' st c.sound alive
            (λ p. rw same (c.sound.opened id s alive (omega (arith, reads)))) wait;
    }

  -- The end of a handler.
  pub release-IsSound : (id : ℕ) (st : Server b) → IsSound st → IsSound (release id st)
  release-IsSound id st c = record {
    fresh = λ j t h. rw (release-next_id id st) (c.fresh j t (find-release id j st t h));
    one_wait = λ j t h. c.one_wait j t (find-release id j st t h);
    opened = λ j t h p. c.opened j t (find-release id j st t h) p;
  }

  IsLive-release :
      (id j : ℕ) (uuid : Text) (st : Server b) → IsLive st uuid j → IsLive (release id st) uuid j
  unfolding owners
  IsLive-release id j uuid st l = elim (Bool-cases (nat_beq id j)) [
    | inl here ↦
        let e : id ≡ j = (nat_beq_iff id j).0 here in
        let kept : release id st ≡ st =
          release-owned id st l.session (rw e l.alive) (omega (arith, l.reads)) in
        subst (λ x. IsLive x uuid j) (sym kept) l
    | inr there ↦ record {
      session = l.session;
      alive = find-release_other id j st (λ e. ground (arith, nat_beq_iff id j)) ∙ l.alive;
      named = l.named;
      lockable = l.lockable;
      reads = l.reads;
    }
  ]

  pub release-IsConsistent :
      (id : ℕ) (st : Server b) → IsConsistent st → IsConsistent (release id st)
  release-IsConsistent id st c = record {
    live = λ uuid j h. IsLive-release id j uuid st (c.live uuid j (rw (release-app id st) at h));
    sound = release-IsSound id st c.sound;
  }
