-- ===== src/Apps/Connections/Opens.antt =====
-- Which sessions are open after the handlers of apps/ that were not before, and which of them the map
-- of contexts has.
use the_game.Base.{
  ℕ, ◌+◌, ◌≤◌, ◌≡◌, refl, ap, ◌⊎◌, inl, inr, true, Option, none, some, Text, Dict, find,
  find-assign, find-erase, nat_eq, list_eq, nat_beq, nat_beq_iff, list_beq_iff, ◌==◌, arith,
  Bool-cases,
}
use the_game.Networking.Boost.{Boost, Endpoint}
use the_game.Networking.Websocket.{WsSession, put_session, release}
use the_game.Networking.Websocket.Stores.{find-put_session, find-release}
use the_game.Networking.Websocket.Session.{run, new_session, read, log}
use the_game.Apps.Connections.{Server, set_ctxs, forget}
use the_game.Apps.Connections.Registry.{IsConsistent, put_cases}
use the_game.Apps.Connections.Upkeep.{opened, registered, forget-sessions}
use the_game.Apps.Connections.Departing.{closed}
use the_game.Apps.Connections.Effects.{Change, stays, joins, leaves, changed, Effect}

-- Nobody joins under a key that the map has.
abbrev pub IsFresh : Change → Dict Text ℕ → Type 0
IsFresh stays m = Unit
IsFresh (joins uuid id) m = find uuid m ≡ none
IsFresh (leaves uuid) m = Unit

module _ (b : Boost) where
  -- The map leads to each session that reads, under its uuid.
  abbrev pub IsComplete : Server b → Type 0
  IsComplete st =
      (id : ℕ) (s : WsSession b.Request)
      → find id st.sessions ≡ some s
      → 1 ≤ s.reading
      → find s.ctx.uuid st.app.ctxs ≡ some id

  -- The session at the address was open before, under the same uuid.
  pub record WasOpen (st : Server b) (id : ℕ) (uuid : Text) : Type 0 where
    pub session : WsSession b.Request
    pub alive : find id st.sessions ≡ some session
    pub reads : 1 ≤ session.reading
    pub named : session.ctx.uuid ≡ uuid

  -- A session that is open afterwards has joined, or was open before and has not left.
  abbrev pub Opens : Change → Server b → Server b → Type 0
  Opens c st st' =
      (id : ℕ) (t : WsSession b.Request)
      → find id st'.sessions ≡ some t
      → 1 ≤ t.reading
      → (c ≡ joins t.ctx.uuid id) ⊎ (WasOpen st id t.ctx.uuid × ¬ (c ≡ leaves t.ctx.uuid))

  not_joining : {uuid : Text} {id : ℕ} → ◌≡◌ {A = Change} stays (joins uuid id) → ⊥
  not_joining p = cc

  not_leaving : {uuid : Text} → ◌≡◌ {A = Change} stays (leaves uuid) → ⊥
  not_leaving p = cc

  joined_not_left : {u v : Text} {id : ℕ} → ◌≡◌ {A = Change} (joins u id) (leaves v) → ⊥
  joined_not_left p = cc

  left_not_joined : {u v : Text} {id : ℕ} → ◌≡◌ {A = Change} (leaves u) (joins v id) → ⊥
  left_not_joined p = cc

  found_again :
      (c : Change) (st : Server b) (id : ℕ) (uuid : Text)
      → IsComplete st
      → IsFresh c st.app.ctxs
      → (c ≡ joins uuid id) ⊎ (WasOpen st id uuid × ¬ (c ≡ leaves uuid))
      → find uuid (changed c st.app.ctxs) ≡ some id
  found_again stays st id uuid k fresh (inl p) = absurd (not_joining p)
  found_again stays st id uuid k fresh (inr (w, _)) =
      rw (← w.named) (k id w.session w.alive w.reads)
  found_again (joins u i) st id uuid k fresh (inl p) =
      ground (arith, find-assign u uuid i st.app.ctxs, list_beq_iff u uuid, joins_injective p)
    where
      joins_injective :
          {u v : Text} {i j : ℕ} → ◌≡◌ {A = Change} (joins u i) (joins v j) → (u ≡ v) × (i ≡ j)
      joins_injective p = (cc, cc)
  found_again (joins u i) st id uuid k fresh (inr (w, _)) =
      let old : find uuid st.app.ctxs ≡ some id = rw w.named at (k id w.session w.alive w.reads) in
      ground (arith, find-assign u uuid i st.app.ctxs, list_beq_iff u uuid, old, fresh)
  found_again (leaves u) st id uuid k fresh (inl p) = absurd (left_not_joined p)
  found_again (leaves u) st id uuid k fresh (inr (w, stayed)) =
      let old : find uuid st.app.ctxs ≡ some id = rw w.named at (k id w.session w.alive w.reads) in
      elim (Bool-cases (u == uuid)) [
        | inl here ↦ absurd (stayed (ap leaves ((list_beq_iff u uuid).0 here)))
        | inr other ↦ ground (arith, find-erase u uuid st.app.ctxs, old, other)
      ]

  pub Opens-IsComplete :
      (c : Change) (st st' : Server b)
      → Opens c st st'
      → Effect b c st st'
      → IsFresh c st.app.ctxs
      → IsComplete st
      → IsComplete st'
  Opens-IsComplete c st st' opens effect fresh k id t alive reads =
      rw effect.ctxs (found_again c st id t.ctx.uuid k fresh (opens id t alive reads))

  -- Sessions only close, or go, or read on.
  pub record Follows (st st' : Server b) : Type 0 where
    pub before :
        (id : ℕ) (t : WsSession b.Request)
        → find id st'.sessions ≡ some t
        → 1 ≤ t.reading
        → WasOpen st id t.ctx.uuid

  pub Follows-Opens : {st st' : Server b} → Follows st st' → Opens stays st st'
  Follows-Opens f id t alive reads = inr (f.before id t alive reads, not_leaving)

  same-Follows :
      {st st' st2 : Server b} → st2.sessions ≡ st'.sessions → Follows st st' → Follows st st2
  same-Follows p f = record { before = λ id t alive reads. f.before id t (rw p at alive) reads }

  pub release-Follows : (id : ℕ) {st st' : Server b} → Follows st st' → Follows st (release id st')
  release-Follows id {st' = st'} f = record {
    before = λ j t alive reads. f.before j t (find-release id j st' t alive) reads;
  }

  pub put-Follows :
      (id : ℕ) (s s' : WsSession b.Request) (st : Server b)
      → find id st.sessions ≡ some s
      → s'.ctx.uuid ≡ s.ctx.uuid
      → (1 ≤ s'.reading → 1 ≤ s.reading)
      → Follows st (put_session id s' st)
  put-Follows id s s' st alive named reads = record {
    before = λ j t there open_now. elim (put_cases b id j s' t st there) [
      | inl (here, same) ↦ record {
        session = s;
        alive = rw here alive;
        reads = reads (rw same at open_now);
        named = ground (arith, same, named);
      }
      | inr old ↦ record { session = t; alive = old; reads = open_now; named = refl }
    ];
  }

  pub run-Follows :
      (request : b.Request) (remote local : Endpoint) (st : Server b)
      → Follows st (run b request remote local st)
  unfolding run new_session
  run-Follows request remote local st =
      let new = new_session b request remote local in
      let st1 = record st { next_id = st.next_id + 1 } in
      record {
        before = λ j t there open_now. elim (put_cases b st.next_id j new t st1 there) [
          | inl (_, same) ↦ absurd (ground (arith, same, open_now))
          | inr old ↦ record { session = t; alive = old; reads = open_now; named = refl }
        ];
      }

  pub log-Follows :
      (ec : Option b.Error) (what : Text) {st st' : Server b}
      → Follows st st'
      → Follows st (log b ec what st')
  unfolding log
  log-Follows ec what f = same-Follows refl f

  pub joined-Opens :
      (id : ℕ) (key : Text) (s : WsSession b.Request) (st : Server b) (c : IsConsistent b st)
      (alive : find id st.sessions ≡ some s) (waits : 1 ≤ s.accepting)
      → Opens (joins key id) st (
          put_session id
            (read b (opened b id key s st c alive waits))
            (registered b id key s st c alive waits))
  unfolding read set_ctxs
  joined-Opens id key s st c alive waits j t there open_now =
      let o = opened b id key s st c alive waits in
      elim (put_cases b id j (read b o) t (registered b id key s st c alive waits) there) [
        | inl (here, same) ↦ inl (ground (arith, here, same))
        | inr before ↦ elim (put_cases b id j o t st before) [
          | inl (here, same) ↦ inl (ground (arith, here, same))
          | inr old ↦
              inr (
                record { session = t; alive = old; reads = open_now; named = refl },
                joined_not_left,
              )
        ]
      ]

  pub left-Opens :
      (id : ℕ) (s : WsSession b.Request) (st : Server b) (c : IsConsistent b st)
      (alive : find id st.sessions ≡ some s) (e : b.Error) (end : b.is_closed e ≡ true)
      → 1 ≤ s.reading
      → IsComplete st
      → Opens
          (leaves s.ctx.uuid)
          st
          (release id (forget b s.ctx.uuid (put_session id (closed b id s st c alive e end) st)))
  left-Opens id s st c alive e end reads k j t there open_now =
      let s' = closed b id s st c alive e end in
      let st1 = put_session id s' st in
      let before : find j st1.sessions ≡ some t =
        rw (forget-sessions b s.ctx.uuid st1) at
          (find-release id j (forget b s.ctx.uuid st1) t there) in
      elim (Bool-cases (nat_beq id j)) [
        | inl here ↦ absurd (
            ground (
              arith,
              find-put_session id j st s',
              here,
              before,
              open_now,
              c.sound.one_wait id s alive,
            ))
        | inr other ↦
            let old : find j st.sessions ≡ some t =
              ground (arith, find-put_session id j st s', other, before) in
            inr (
              record { session = t; alive = old; reads = open_now; named = refl },
              λ p. ground (
                arith,
                leaves_injective p,
                k id s alive reads,
                k j t old open_now,
                other,
                nat_beq_iff id j,
              ),
            )
      ]
    where
      leaves_injective : {u v : Text} → ◌≡◌ {A = Change} (leaves u) (leaves v) → u ≡ v
      leaves_injective p = cc
