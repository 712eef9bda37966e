-- ===== src/Networking/Websocket/Stores.antt =====
-- The store of sessions of networking/websocket: what a write to one address shows at another.
use the_game.Base.{
  [], ◌∷◌, ℕ, ◌≤◌, ◌≡◌, ap, ◌≢◌, none, some, Dict, find, assign, find-assign, find-erase, Eq, ◌==◌,
  eq_refl, nat_eq, nat_beq_iff, ok, if◌then◌else◌, arith,
}
use the_game.Networking.Websocket.{WsSession, Store, session_at, put_session, release, owners}

pub find-assign_self {ℓ κ} :
    {K : Type ℓ} {V : Type κ} ⦃e : Eq K⦄ (k : K) (v : V) (m : Dict K V)
    → find k (assign k v m) ≡ some v
find-assign_self k v m = rw (find-assign k k v m, eq_refl k)

module _ {Request A : Type 0} where
  pub session_at-alive :
      (id : ℕ) (st : Store Request A) (s : WsSession Request)
      → find id st.sessions ≡ some s
      → session_at id st ≡ ok s
  unfolding session_at
  session_at-alive id st s alive = rw alive

  pub find-put_session :
      (id j : ℕ) (st : Store Request A) (s : WsSession Request)
      → find j (put_session id s st).sessions ≡ (if id == j then some s else find j st.sessions)
  unfolding put_session
  find-put_session id j st s = find-assign id j s st.sessions

  pub put_session-alive :
      (id : ℕ) (st : Store Request A) (s : WsSession Request)
      → find id (put_session id s st).sessions ≡ some s
  unfolding put_session
  put_session-alive id st s = find-assign_self id s st.sessions

  pub session_at-put_session :
      (id : ℕ) (st : Store Request A) (s : WsSession Request)
      → session_at id (put_session id s st) ≡ ok s
  session_at-put_session id st s = session_at-alive id _ s (put_session-alive id st s)

  -- A session that something owns survives the end of a handler.
  pub release-owned :
      (id : ℕ) (st : Store Request A) (s : WsSession Request)
      → find id st.sessions ≡ some s
      → 1 ≤ owners s
      → release id st ≡ st
  unfolding release
  release-owned id st s alive owned = ground (arith, alive, nat_beq_iff (owners s) 0)

  -- One that nothing owns is destroyed.
  pub release-alone :
      (id : ℕ) (st : Store Request A) (s : WsSession Request)
      → find id st.sessions ≡ some s
      → owners s ≡ 0
      → find id (release id st).sessions ≡ none
  unfolding release
  release-alone id st s alive alone =
      ground
        (arith, alive, alone, nat_beq_iff (owners s) 0, find-erase id id st.sessions, eq_refl id)

  -- The end of a handler destroys no other session.
  pub find-release_other :
      (id j : ℕ) (st : Store Request A)
      → id ≢ j
      → find j (release id st).sessions ≡ find j st.sessions
  unfolding release
  find-release_other id j st other = ground (arith, nat_beq_iff id j, find-erase id j st.sessions)

  pub release-app : (id : ℕ) (st : Store Request A) → (release id st).app ≡ st.app
  unfolding release
  release-app id st = ground arith

  pub release-next_id : (id : ℕ) (st : Store Request A) → (release id st).next_id ≡ st.next_id
  unfolding release
  release-next_id id st = ground arith

  -- What is alive after the end of a handler was alive before.
  pub find-release :
      (id j : ℕ) (st : Store Request A) (s : WsSession Request)
      → find j (release id st).sessions ≡ some s
      → find j st.sessions ≡ some s
  unfolding release
  find-release id j st s h = ground (arith, find-erase id j st.sessions)

assign_twice {ℓ κ} :
    {K : Type ℓ} {V : Type κ} ⦃e : Eq K⦄ (k : K) (v w : V) (m : Dict K V)
    → assign k v (assign k w m) ≡ assign k v m
unfolding assign
assign_twice ⦃e⦄ k v w [] = ground (arith, e.beq_iff k k)
assign_twice ⦃e⦄ k v w ((j, x) ∷ m) = ground (arith, e.beq_iff j k, assign_twice k v w m)

pub put_session_twice :
    {Request A : Type 0} (id : ℕ) (s t : WsSession Request) (st : Store Request A)
    → put_session id s (put_session id t st) ≡ put_session id s st
unfolding put_session
put_session_twice id s t st =
    ap (λ ss. record st { sessions = ss }) (assign_twice id s t st.sessions)
