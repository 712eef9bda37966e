-- ===== src/Apps/SimpleGame/SharedKey.antt =====
-- Two clients of apps/simple_game/beast.cpp that send the same "Sec-WebSocket-Key": the uuid of a
-- context is that key, and the map of contexts has one entry for it.
use the_game.Base.{
  refl, List, [], ◌∷◌, Text, Result, ◌>>=◌, ℕ, ◌≡◌, sym, ◌∙◌, ap, ◌≢◌, true, false, some, none,
  find, find-erase, nat_eq, list_eq, nat_beq_iff, list_beq_iff, ok, arith, Bool-cases, inl, inr,
  Option, ok_injective,
}
use the_game.Networking.Boost.{Boost}
use the_game.Networking.Http.Query.{Params}
use the_game.Networking.Websocket.{WsSession, put_session, release}
use the_game.Networking.Websocket.Stores.{find-put_session, find-release_other}
use the_game.Apps.Connections.{Server, forget}
use the_game.Apps.Connections.Upkeep.{forget-sessions}
use the_game.Apps.Connections.Departing.{closed, close_result}
use the_game.Apps.Connections.Events.{read_failed, step, IsRegular}
use the_game.Apps.Connections.Effects.{Effect}
use the_game.Apps.Connections.Changes.{change_of}
use the_game.Apps.SimpleGame.{set_state}
use the_game.Apps.SimpleGame.Ready.{IsReady, step-IsReady}
use the_game.Apps.SimpleGame.Listed.{is_listed, entry_of}
use the_game.Apps.SimpleGame.Delivery.{set_state-Delivers}

module _ (b : Boost) where
  -- States that are set one after the other, by requests with these parameters and fresh responses.
  unfoldable pub set_states :
      List (b.Request × Option Params × b.Response) → Server b → Result (Server b)
  unfolding set_state
  set_states [] st = ok st
  set_states ((req, params, res) ∷ rest) st = do
    (res', st') ← set_state b req params res st
    set_states rest st'

  abbrev pub last_state : List (b.Request × Option Params × b.Response) → Text → Text
  last_state [] state = state
  last_state ((req, params, res) ∷ rest) state = last_state rest (b.body req)

  -- A session that the map does not list is told of none of them.
  untold :
      (rs : List (b.Request × Option Params × b.Response)) (id : ℕ) (t : WsSession b.Request)
      (st : Server b)
      → IsReady b st
      → find id st.sessions ≡ some t
      → is_listed id st.app.ctxs ≡ false
      → (st' : Server b) × (set_states rs st ≡ ok st')
        × (st'.app.state ≡ last_state rs st.app.state)
        × (st'.app.ctxs ≡ st.app.ctxs)
        × (find id st'.sessions ≡ some t)
  unfolding set_states
  untold [] id t st r there absent = (st, refl, refl, refl, there)
  untold ((req, params, res) ∷ rest) id t st r there absent =
      let (st1, set, r1, state, same, _, told) = set_state-Delivers b req params res st r in
      let (st2, sets, states, kept, still) =
        untold rest id t st1 r1 (ground (arith, told id t there, absent))
          (ap (is_listed id) same ∙ absent) in
      (st2, ground (arith, set, sets), states ∙ ap (last_state rest) state, kept ∙ same, still)

module _ (b : Boost) (first second : ℕ) (e : b.Error) (s t : WsSession b.Request) (st : Server b)
    (apart : first ≢ second) (alive : find first st.sessions ≡ some s)
    (other : find second st.sessions ≡ some t) (shared : s.ctx.uuid ≡ t.ctx.uuid)
    (ready : IsReady b st) (regular : IsRegular b (read_failed first e) st) where
  end : b.is_closed e ≡ true
  end = let (u, there, reads, is_end) = regular in is_end

  -- The close frame of the first client leaves the second's session.
  kept :
      (st' : Server b)
      → step b (read_failed first e) st ≡ ok st'
      → find second st'.sessions ≡ some t
  unfolding step
  kept st' ran =
      let st1 = put_session first (closed b first s st ready.consistent alive e end) st in
      let st2 = forget b s.ctx.uuid st1 in
      let left : release first st2 ≡ st' =
        ok_injective (sym (close_result b first s st ready.consistent alive e end) ∙ ran) in
      ap (λ (x : Server b). find second x.sessions) (sym left)
      ∙ find-release_other first second st2 apart
      ∙ ap (find second) (forget-sessions b s.ctx.uuid st1)
      ∙ ground (
        arith,
        find-put_session first second st (closed b first s st ready.consistent alive e end),
        other,
        nat_beq_iff first second,
      )

  -- No entry is left for the key that both have.
  dropped :
      (st' : Server b)
      → Effect b (change_of b (read_failed first e) st) st st'
      → find t.ctx.uuid st'.app.ctxs ≡ none
  unfolding change_of
  dropped st' effect = ground (
    arith,
    effect.ctxs,
    end,
    alive,
    shared,
    find-erase t.ctx.uuid t.ctx.uuid st.app.ctxs,
    list_beq_iff t.ctx.uuid t.ctx.uuid,
  )

  unlisted_now :
      (st' : Server b)
      → IsReady b st'
      → find second st'.sessions ≡ some t
      → find t.ctx.uuid st'.app.ctxs ≡ none
      → is_listed second st'.app.ctxs ≡ false
  unlisted_now st' r there none_left = elim (Bool-cases (is_listed second st'.app.ctxs)) [
    | inl listed ↦
        let (uuid, entry) = entry_of second st'.app.ctxs r.keyed listed in
        let l = r.consistent.live uuid second entry in
        absurd (ground (arith, l.alive, l.named, there, entry, none_left))
    | inr absent ↦ absent
  ]

  -- Two clients have sent the same key, the game is ready, and the first client's connection is closed
  -- by a close frame: its handler returns, with the game ready and no entry for the key in the map of
  -- contexts, though the second client's session is alive. Whatever states are set after that, one
  -- after the other with nothing in between, each is set, the map stays as it is, and the second
  -- client's session is told of none.
  pub shared_key_lem :
      (rs : List (b.Request × Option Params × b.Response))
      → (st1 : Server b) × (st2 : Server b) × (step b (read_failed first e) st ≡ ok st1)
        × IsReady b st1
        × (find t.ctx.uuid st1.app.ctxs ≡ none)
        × (find second st1.sessions ≡ some t)
        × (set_states b rs st1 ≡ ok st2)
        × (st2.app.state ≡ last_state b rs st1.app.state)
        × (st2.app.ctxs ≡ st1.app.ctxs)
        × (find second st2.sessions ≡ some t)
  shared_key_lem rs =
      let (st1, ran, ready1, effect) = step-IsReady b (read_failed first e) st ready regular in
      let there = kept st1 ran in
      let missing = dropped st1 effect in
      let absent = unlisted_now st1 ready1 there missing in
      let (st2, sets, states, same, still) = untold b rs second t st1 ready1 there absent in
      (st1, st2, ran, ready1, missing, there, sets, states, same, still)
