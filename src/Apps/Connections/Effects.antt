-- ===== src/Apps/Connections/Effects.antt =====
-- What the completions of websocket operations change besides the sessions: the map of contexts,
-- and what a timer relies on (networking/websocket/websocket_session.cpp under the callbacks of
-- apps/).
use the_game.Base.{
  ℕ, ◌≤◌, ◌≡◌, refl, ◌∙◌, ap, inl, inr, Option, some, Text, Dict, find, assign, erase, is_some,
  nat_eq, list_eq, nat_beq, nat_beq_iff, arith, Bool-cases, if◌then◌else◌, IsKeyed, assign-IsKeyed,
  erase-IsKeyed,
}
use the_game.Networking.Boost.{Boost}
use the_game.Networking.Websocket.{WsSession, put_session, release, owners}
use the_game.Networking.Websocket.Stores.{
  find-put_session, release-owned, release-app, find-release_other,
}
use the_game.Networking.Websocket.Session.{log}
use the_game.Apps.Connections.{Server, set_ctxs, forget}
use the_game.Apps.Connections.Registry.{put_app}

-- What happens to the map from uuids to contexts.
pub data Change : Type 0 where
  stays : Change
  joins : Text → ℕ → Change
  leaves : Text → Change

abbrev pub changed : Change → Dict Text ℕ → Dict Text ℕ
changed stays m = m
changed (joins uuid id) m = assign uuid id m
changed (leaves uuid) m = if is_some (find uuid m) then erase uuid m else m

pub changed-IsKeyed : (c : Change) (m : Dict Text ℕ) → IsKeyed m → IsKeyed (changed c m)
changed-IsKeyed stays m h = h
changed-IsKeyed (joins uuid id) m h = assign-IsKeyed uuid id m h
changed-IsKeyed (leaves uuid) m h = elim (Bool-cases (is_some (find uuid m))) [
  | inl here ↦ rw here (erase-IsKeyed uuid m h)
  | inr absent ↦ rw absent h
]

module _ (b : Boost) where
  -- The map changes so, the state and the timers stay, and a session that timers hold stays alive
  -- and held as often.
  pub record Effect (c : Change) (st st' : Server b) : Type 0 where
    pub ctxs : st'.app.ctxs ≡ changed c st.app.ctxs
    pub state : st'.app.state ≡ st.app.state
    pub timers : st'.app.timers ≡ st.app.timers
    pub kept :
        (j : ℕ) (s : WsSession b.Request)
        → find j st.sessions ≡ some s
        → 1 ≤ s.held
        → (t : WsSession b.Request) × (find j st'.sessions ≡ some t) × (t.held ≡ s.held)

  module _ {st st1 st2 : Server b} where
    kept_on :
        {c d : Change}
        → Effect c st st1
        → Effect d st1 st2
        → (j : ℕ) (s : WsSession b.Request) → find j st.sessions ≡ some s
        → 1 ≤ s.held
        → (t : WsSession b.Request) × (find j st2.sessions ≡ some t) × (t.held ≡ s.held)
    kept_on e f j s alive held =
        let (t, alive1, same1) = e.kept j s alive held in
        let (u, alive2, same2) = f.kept j t alive1 (omega (arith, same1)) in
        (u, alive2, same2 ∙ same1)

    pub then-stays : {c : Change} → Effect c st st1 → Effect stays st1 st2 → Effect c st st2
    then-stays e f = record {
      ctxs = f.ctxs ∙ e.ctxs;
      state = f.state ∙ e.state;
      timers = f.timers ∙ e.timers;
      kept = kept_on e f;
    }

    pub stays-then : {c : Change} → Effect stays st st1 → Effect c st1 st2 → Effect c st st2
    stays-then {c} e f = record {
      ctxs = f.ctxs ∙ ap (changed c) e.ctxs;
      state = f.state ∙ e.state;
      timers = f.timers ∙ e.timers;
      kept = kept_on e f;
    }

  -- Nothing but the map, the log and the next address changes.
  pub same_sessions-Effect :
      {st st' : Server b} (c : Change)
      → st'.sessions ≡ st.sessions
      → st'.app.ctxs ≡ changed c st.app.ctxs
      → st'.app.state ≡ st.app.state
      → st'.app.timers ≡ st.app.timers
      → Effect c st st'
  same_sessions-Effect c same ctxs state timers = record {
    ctxs = ctxs;
    state = state;
    timers = timers;
    kept = λ j s alive held. (s, rw same alive, refl);
  }

  pub put-Effect :
      (id : ℕ) (s s' : WsSession b.Request) (st : Server b)
      → find id st.sessions ≡ some s
      → s'.held ≡ s.held
      → Effect stays st (put_session id s' st)
  put-Effect id s s' st alive same = record {
    ctxs = ap (λ a. a.ctxs) (put_app b id s' st);
    state = ap (λ a. a.state) (put_app b id s' st);
    timers = ap (λ a. a.timers) (put_app b id s' st);
    kept = λ j t there held. elim (Bool-cases (nat_beq id j)) [
      | inl here ↦
          (s', ground (arith, find-put_session id j st s'), ground (arith, nat_beq_iff id j))
      | inr other ↦ (t, ground (arith, find-put_session id j st s'), refl)
    ];
  }

  pub release-Effect : (id : ℕ) (st : Server b) → Effect stays st (release id st)
  unfolding owners
  release-Effect id st = record {
    ctxs = ap (λ a. a.ctxs) (release-app id st);
    state = ap (λ a. a.state) (release-app id st);
    timers = ap (λ a. a.timers) (release-app id st);
    kept = λ j t there held. elim (Bool-cases (nat_beq id j)) [
      | inl here ↦
          let e : id ≡ j = (nat_beq_iff id j).0 here in
          let same : release id st ≡ st =
            release-owned id st t (rw e there) (omega (arith, held)) in
          (t, rw same there, refl)
      | inr other ↦
          (t, find-release_other id j st (λ e. ground (arith, nat_beq_iff id j)) ∙ there, refl)
    ];
  }

  pub log-Effect :
      (ec : Option b.Error) (what : Text) (st : Server b) → Effect stays st (log b ec what st)
  unfolding log
  log-Effect ec what st = same_sessions-Effect stays refl refl refl refl

  pub forget-Effect : (uuid : Text) (st : Server b) → Effect (leaves uuid) st (forget b uuid st)
  unfolding forget
  forget-Effect uuid st =
      same_sessions-Effect (leaves uuid) (ground arith) (ground arith) (ground arith) (ground arith)

  pub set_ctxs-Effect :
      (uuid : Text) (id : ℕ) (st : Server b)
      → Effect (joins uuid id) st (set_ctxs b (assign uuid id st.app.ctxs) st)
  unfolding set_ctxs
  set_ctxs-Effect uuid id st = same_sessions-Effect (joins uuid id) refl refl refl refl
